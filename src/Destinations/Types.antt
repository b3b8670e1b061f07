-- ===== src/Destinations/Types.antt =====
-- The registry (internal/destinations/destination.go): `Build` against `Register` and `Types`.
use loxbak.Base.{
  ◌≡◌, refl, ap, false, none, some, [], ◌∷◌, any_of, arith, Bool-cases, inl, inr, err, errorf,
}
use loxbak.Base.Text.{Text, txt, text_eq, text_eq_refl}
use loxbak.Destinations.Registry.{
  Constructor, Registry, register, registered, build_with, build, types, Libraries, registry,
  init_ftp, init_local, init_webdav,
}

module _ {S : Type 0} where
  registered-register :
      (type : Text) (c : Constructor S) (r : Registry S)
      → registered type (register type c r) ≡ some c
  unfolding registered register
  registered-register type c [] = rw (text_eq_refl type) refl
  registered-register type c ((t, d) ∷ rest) = elim (Bool-cases (text_eq t type)) [
    | inl e ↦ rw (e, text_eq_refl type) refl
    | inr e ↦ rw (e, registered-register type c rest) (rw e refl)
  ]

  -- The constructor registered last for a type is the one that builds it.
  build-register :
      (type name config secret : Text) (c : Constructor S) (r : Registry S)
      → build (register type c r) type name config secret ≡ c name config secret
  unfolding build
  build-register type name config secret c r =
      ap (λ o. build_with o name config secret) (registered-register type c r)

  registered-none :
      (type : Text) (r : Registry S)
      → any_of (λ t. text_eq t type) (types r) ≡ false
      → registered type r ≡ none
  unfolding registered
  registered-none type [] h = refl
  registered-none type ((t, c) ∷ rest) h = ground (arith, registered-none type rest)

  -- A type that is not listed is refused.
  build_unlisted :
      (type name config secret : Text) (r : Registry S)
      → any_of (λ t. text_eq t type) (types r) ≡ false
      → build r type name config secret
        ≡ err (errorf (txt "destinations: unknown destination type"))
  unfolding build
  build_unlisted type name config secret r h =
      ap (λ o. build_with o name config secret) (registered-none type r h)

-- The types of the package.
registry-types :
    {S Conn : Type 0} (libs : Libraries S Conn)
    → types (registry libs)
      ≡ (b'f' ∷ b't' ∷ b'p' ∷ [])
        ∷ (b'l' ∷ b'o' ∷ b'c' ∷ b'a' ∷ b'l' ∷ [])
        ∷ (b'w' ∷ b'e' ∷ b'b' ∷ b'd' ∷ b'a' ∷ b'v' ∷ [])
        ∷ []
unfolding registry init_ftp init_local init_webdav register text_eq
registry-types libs = refl
