-- ===== src/Db/Links.antt =====
-- The links between schedules and destinations: what replacing them does, and that deleting a
-- destination never drops one.
use mathlib.Core.List.{append-nil, append_assoc, map-append}
use loxbak.Base.{
  ℕ, suc, ◌≡◌, refl, ap, sym, ◌∙◌, Bool, false, some, List, [], ◌∷◌, ◌++◌, map, arith, ltb, ==_refl,
  not, length, keep_if, keep_if-append, inl, inr, ◌⊎◌, Result, ok, err, Error,
}
use loxbak.Base.Int.{ℤ}
use loxbak.Base.Text.{txt}
use loxbak.Db.{ScheduleDestination, Tables, Db, M}
use loxbak.Db.Sql.{
  exec, exec-ok, query, wrapping, roll_back, ◌>>=◌, bind-ok, wrapping-ok, query-tables,
}
use loxbak.Db.Destinations.{links_to, delete_destination}
use loxbak.Db.Schedules.{
  links_of, clear_links, insert_link, insert_links, replace_links, set_schedule_destinations,
}

keep_if-not_of_none {ℓ} :
    {A : Type ℓ} (p : A → Bool) (xs : List A)
    → ltb 0 (length (keep_if p xs)) ≡ false
    → keep_if (λ x. not (p x)) xs ≡ xs
keep_if-not_of_none p [] h = refl
keep_if-not_of_none p (x ∷ xs) h = ground (arith, keep_if-not_of_none p xs)

-- Deleting a destination drops no link from any schedule, on every path: a destination in use is
-- refused, and without a use there is nothing for the foreign key to remove.
pub delete_destination-links :
    (id : ℕ) (d : Db) → (delete_destination id d).1.tables.links ≡ d.tables.links
unfolding delete_destination
delete_destination-links id d = ground (arith, keep_if-not_of_none (links_to id) d.tables.links)

-- What a request asks of a link: the destination and the retention.
abbrev pub wanted : ScheduleDestination → ℕ × ℤ
wanted l = (l.destination_id, l.retention_count)

abbrev pub own : ℕ → Tables → List (ℕ × ℤ)
own id t = map wanted (keep_if (links_of id) t.links)

abbrev pub others : ℕ → Tables → List ScheduleDestination
others id t = keep_if (λ l. not (links_of id l)) t.links

-- The tables but for the links, the id of the next link included.
abbrev pub rest_of : Tables → Tables
rest_of t = record t { links = []; next_link = 0 }

insert_link-some :
    (id : ℕ) (l : ScheduleDestination) (t u : Tables)
    → insert_link id l t ≡ some (tt, u)
    → (own id u ≡ own id t ++ wanted l ∷ []) × (others id u ≡ others id t) × (rest_of u ≡ rest_of t)
insert_link-some id l t u e =
    let row : ScheduleDestination = record {
      id = t.next_link;
      schedule_id = id;
      destination_id = l.destination_id;
      retention_count = l.retention_count;
    } in
    let u' : Tables = record t { links = t.links ++ row ∷ []; next_link = suc t.next_link } in
    let same : u' ≡ u = ground arith in
    rw (← same) (
      rw (keep_if-append (links_of id) t.links (row ∷ []), ==_refl id, map-append) refl,
      rw (keep_if-append (λ l. not (links_of id l)) t.links (row ∷ []), ==_refl id, append-nil)
          refl,
      refl,
    )

-- How the links of one schedule have changed: `ls` are appended to its own, and nothing else moved.
abbrev Added : ℕ → List (ℕ × ℤ) → Tables → Tables → Type 0
Added id ls t u =
    (own id u ≡ own id t ++ ls) × (others id u ≡ others id t) × (rest_of u ≡ rest_of t)

insert_links-Added :
    (id : ℕ) (ls : List ScheduleDestination) (d : Db)
    → (insert_links id ls d).0 ≡ ok tt
    → Added id (map wanted ls) d.tables (insert_links id ls d).1.tables
unfolding insert_links
insert_links-Added id [] d e = (sym (append-nil _), refl, refl)
insert_links-Added id (l ∷ ls) d e =
    let m : M (Unit {0}) =
      wrapping (txt "db: insert schedule destination") (exec (insert_link id l)) in
    let (_, first, same) = bind-ok m (λ _. insert_links id ls) d tt e in
    let (u, wrote, at) =
      exec-ok (insert_link id l) d tt (wrapping-ok _ (exec (insert_link id l)) d tt first) in
    let (a, b, c) = insert_link-some id l d.tables u wrote in
    let after : (m d).1.tables ≡ u = ap (λ (x : Db). x.tables) at in
    let (a', b', c') =
      insert_links-Added id ls (m d).1 (sym (ap (λ (x : Result (Unit {0}) × Db). x.0) same) ∙ e) in
    rw same (
      a' ∙ ap (λ x. x ++ map wanted ls) (ap (own id) after ∙ a) ∙ append_assoc _ (wanted l ∷ []) _,
      b' ∙ ap (others id) after ∙ b,
      c' ∙ ap rest_of after ∙ c,
    )

keep_if_of_complement {ℓ} :
    {A : Type ℓ} (p : A → Bool) (xs : List A) → keep_if p (keep_if (λ x. not (p x)) xs) ≡ []
keep_if_of_complement p [] = refl
keep_if_of_complement p (x ∷ xs) = ground (arith, keep_if_of_complement p xs)

keep_if_idem {ℓ} :
    {A : Type ℓ} (p : A → Bool) (xs : List A) → keep_if p (keep_if p xs) ≡ keep_if p xs
keep_if_idem p [] = refl
keep_if_idem p (x ∷ xs) = ground (arith, keep_if_idem p xs)

-- The schedule's own links are now `ls`, and nothing else moved.
abbrev pub Replaced : ℕ → List (ℕ × ℤ) → Tables → Tables → Type 0
Replaced id ls t u = (own id u ≡ ls) × (others id u ≡ others id t) × (rest_of u ≡ rest_of t)

cleared : ℕ → Tables → Tables
cleared id t = record t { links = others id t }

Replaced-cleared : (id : ℕ) (t : Tables) → Replaced id [] t (cleared id t)
unfolding cleared
Replaced-cleared id t =
    (ap (map wanted) (keep_if_of_complement (links_of id) t.links), keep_if_idem _ t.links, refl)

clear_links-ok :
    (id : ℕ) (d : Db)
    → (exec (clear_links id) d).0 ≡ ok tt
    → (exec (clear_links id) d).1.tables ≡ cleared id d.tables
unfolding cleared
clear_links-ok id d e =
    let (u, wrote, at) = exec-ok (clear_links id) d tt e in
    ap (λ (x : Db). x.tables) at ∙ (ground arith)

replace_links-Replaced :
    (id : ℕ) (ls : List ScheduleDestination) (d : Db)
    → (replace_links id ls d).0 ≡ ok tt
    → Replaced id (map wanted ls) d.tables (replace_links id ls d).1.tables
unfolding replace_links
replace_links-Replaced id ls d e =
    let begin : M (Unit {0}) = wrapping (txt "db: set schedule destinations") (query (λ _. tt)) in
    let clear : M (Unit {0}) =
      wrapping (txt "db: clear schedule destinations") (exec (clear_links id)) in
    let (_, _, s1) = bind-ok begin (λ _. clear >>= λ _. insert_links id ls >>= λ _. begin) d tt e in
    let e1 = sym (ap (λ (x : Result (Unit {0}) × Db). x.0) s1) ∙ e in
    let d1 = (begin d).1 in
    let (_, c, s2) = bind-ok clear (λ _. insert_links id ls >>= λ _. begin) d1 tt e1 in
    let e2 = sym (ap (λ (x : Result (Unit {0}) × Db). x.0) s2) ∙ e1 in
    let d2 = (clear d1).1 in
    let (_, i, s3) = bind-ok (insert_links id ls) (λ _. begin) d2 tt e2 in
    let cut : d2.tables ≡ cleared id d.tables =
      clear_links-ok id d1 (wrapping-ok _ (exec (clear_links id)) d1 tt c)
      ∙ ap (cleared id) (query-tables (λ _. tt) d) in
    let (a, b, r) = insert_links-Added id ls d2 i in
    let (a', b', r') = Replaced-cleared id d.tables in
    let last : (replace_links id ls d).1.tables ≡ (insert_links id ls d2).1.tables =
      ap (λ (x : Result (Unit {0}) × Db). x.1.tables) (s1 ∙ s2 ∙ s3)
      ∙ query-tables (λ _. tt) (insert_links id ls d2).1 in
    (
      ap (own id) last ∙ a ∙ ap (λ x. x ++ map wanted ls) (ap (own id) cut ∙ a'),
      ap (others id) last ∙ b ∙ ap (others id) cut ∙ b',
      ap rest_of last ∙ r ∙ ap rest_of cut ∙ r',
    )

roll_back_cases :
    (t : Tables) (r : Result (Unit {0}) × Db) (P : Tables → Type 0)
    → (r.0 ≡ ok tt → P r.1.tables)
    → (((roll_back t r).0 ≡ ok tt) × P (roll_back t r).1.tables)
      ⊎ ((e : Error) × ((roll_back t r).0 ≡ err e) × ((roll_back t r).1.tables ≡ t))
roll_back_cases t (ok tt, d) P h = inl (refl, h refl)
roll_back_cases t (err e, d) P h = inr (e, refl, refl)

-- Replacing a schedule's links is all or nothing, whichever statements fail: either the call
-- succeeds, the schedule's links are the given destinations and retentions in their order, the
-- links of other schedules and all other tables are as before; or it fails and every table is.
pub set_schedule_destinations_atomic :
    (id : ℕ) (ls : List ScheduleDestination) (d : Db)
    → (((set_schedule_destinations id ls d).0 ≡ ok tt)
        × Replaced id (map wanted ls) d.tables (set_schedule_destinations id ls d).1.tables)
      ⊎ ((e : Error) × ((set_schedule_destinations id ls d).0 ≡ err e)
          × ((set_schedule_destinations id ls d).1.tables ≡ d.tables))
unfolding set_schedule_destinations
set_schedule_destinations_atomic id ls d =
    roll_back_cases d.tables (replace_links id ls d) (Replaced id (map wanted ls) d.tables)
      (replace_links-Replaced id ls d)
