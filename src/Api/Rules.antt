-- ===== src/Api/Rules.antt =====
-- Rules for what a handler answers: a property of the response, shown for each way in which a request ends.
use loxbak.Base.{◌≡◌, refl, Bool, true, false, Option, none, some, Error, Result, ok, err}
use loxbak.Api.{Response, Server, Handler, check, given, branch, call}
use loxbak.Scheduler.World.{World, R, continue, ◌>>=◌}

module _ {E : Type 0} (P : Response × Server E → Type 0) where
  pub check-post :
      (good : Bool) (bad : Response) (next : Handler E) (s : Server E)
      → P (bad, s)
      → P (next s)
      → P (check good bad next s)
  check-post true bad next s h k = k
  check-post false bad next s h k = h

module _ {E A : Type 0} (P : Response × Server E → Type 0) where
  pub given-post :
      (o : Option A) (bad : Response) (next : A → Handler E) (s : Server E)
      → P (bad, s)
      → ((a : A) → o ≡ some a → P (next a s))
      → P (given o bad next s)
  given-post none bad next s h k = h
  given-post (some a) bad next s h k = k a refl

  branch-post :
      (r : Result A) (bad : Error → Response) (next : A → Handler E) (s : Server E)
      → ((e : Error) → P (bad e, s))
      → ((a : A) → r ≡ ok a → P (next a s))
      → P (branch r bad next s)
  branch-post (ok a) bad next s h k = k a refl
  branch-post (err e) bad next s h k = h e

  pub call-post :
      (m : R E A) (bad : Error → Response) (next : A → Handler E) (s : Server E)
      → ((e : Error) → P (bad e, record s { world = (m s.world).1 }))
      → ((a : A) → (m s.world).0 ≡ ok a → P (next a (record s { world = (m s.world).1 })))
      → P (call m bad next s)
  call-post m bad next s = branch-post (m s.world).0 bad next (record s { world = (m s.world).1 })

module _ {E A B : Type 0} (P : Result B → Type 0) (errs : (e : Error) → P (err e)) where
  continue-post :
      (r : Result A) (f : A → R E B) (w : World E)
      → ((a : A) → r ≡ ok a → P (f a w).0)
      → P (continue r f w).0
  continue-post (ok a) f w k = k a refl
  continue-post (err e) f w k = errs e

  pub bind-post :
      (m : R E A) (f : A → R E B) (w : World E)
      → ((a : A) → (m w).0 ≡ ok a → P (f a (m w).1).0)
      → P ((m >>= f) w).0
  bind-post m f w = continue-post (m w).0 f (m w).1
