-- ===== src/Db/Numbering.antt =====
-- The numbers of the schedules (the AUTOINCREMENT column of the table `schedules`), and the writes that keep them.
use loxbak.Base.{
  ℕ, ◌≡◌, refl, ◌∙◌, Bool, false, ◌&&◌, List, [], ◌∷◌, ◌++◌, map, arith, ◌==◌, any_of, keep_if, All,
  All-append, All-imp, All-map, All-keep_if, any_of-append, any_of-map, any_of-keep_if-false,
  Bool-cases, inl, inr, ltb, length, ◌<◌,
}
use loxbak.Base.Results.{
  schedule_not_found, destination_not_found, destination_in_use, run_not_found,
}
use loxbak.Base.Text.{Text, txt}
use loxbak.Db.{Schedule, Tables, Db}
use loxbak.Db.Calls.{
  Call, create_schedule, update_schedule, delete_schedule, set_schedule_destinations,
  create_destination, update_destination, delete_destination, create_run, finish_run,
  create_run_destination_result, delete_run_destination_result_by_filename, perform,
}
use loxbak.Db.Destinations.{
  links_to, insert_destination, update_destination_rows, delete_destination_rows,
}
use loxbak.Db.Replacing.{replacing-Keeps}
use loxbak.Db.Runs.{
  known_schedule, known_destination, known_run, refers, insert_run, finish_run_rows, insert_result,
  delete_results,
}
use loxbak.Db.Schedules.{
  insert_schedule, set_schedule, update_schedule_rows, delete_schedule_rows, link_allowed,
}
use loxbak.Db.Sql.{
  Kept, query-Keeps, exec-Keeps, bind-Keeps, if-Keeps, affected-Keeps, query, wrapping, fail,
}

-- No two schedules have the same id.
abbrev pub Distinct : List Schedule → Type 0
Distinct [] = Unit
Distinct (s ∷ rest) = (any_of (λ (t : Schedule). t.id == s.id) rest ≡ false) × Distinct rest

pub record IsNumbered (t : Tables) : Type 0 where
  pub distinct : Distinct t.schedules
  pub below : All (λ s. s.id < t.next_schedule) t.schedules

pub keep_if-Distinct :
    (q : Schedule → Bool) (ss : List Schedule) → Distinct ss → Distinct (keep_if q ss)
keep_if-Distinct q [] d = tt
keep_if-Distinct q (s ∷ ss) (n, d) = elim (Bool-cases (q s)) [
  | inl e ↦
      rw e (any_of-keep_if-false (λ (t : Schedule). t.id == s.id) q ss n, keep_if-Distinct q ss d)
  | inr e ↦ rw e (keep_if-Distinct q ss d)
]

map-Distinct :
    (f : Schedule → Schedule) (ss : List Schedule)
    → ((s : Schedule) → (f s).id ≡ s.id)
    → Distinct ss
    → Distinct (map f ss)
map-Distinct f [] same d = tt
map-Distinct f (s ∷ ss) same (n, d) = (
  any_of-map (λ (t : Schedule). t.id == (f s).id) f (λ t. rw (same t) refl) ss ∙ rw (same s) n,
  map-Distinct f ss same d,
)

append-Distinct :
    (ss : List Schedule) (s : Schedule)
    → Distinct ss
    → All (λ t. t.id < s.id) ss
    → Distinct (ss ++ s ∷ [])
append-Distinct [] s d h = (refl, tt)
append-Distinct (t ∷ ss) s (n, d) (lt, h) = (
  rw (any_of-append (λ (u : Schedule). u.id == t.id) ss (s ∷ [])) (ground arith),
  append-Distinct ss s d h,
)

-- Rows of schedules that stay as they are.
same_schedules :
    (t u : Tables)
    → t.schedules ≡ u.schedules
    → t.next_schedule ≡ u.next_schedule
    → IsNumbered t
    → IsNumbered u
same_schedules t u e n c = record { distinct = rw (← e) c.distinct; below = rw (← e, ← n) c.below }

insert_schedule-Kept :
    (name cron : Text) (on : Bool) (now : ℕ) (t : Tables)
    → IsNumbered t
    → Kept IsNumbered (insert_schedule name cron on now t)
insert_schedule-Kept name cron on now t c = record {
  distinct = append-Distinct t.schedules _ c.distinct c.below;
  below =
      All-append _ t.schedules _ (All-imp _ _ (λ s lt. omega arith) t.schedules c.below)
        (omega arith, tt);
}

set_schedule-id :
    (id : ℕ) (name cron : Text) (on : Bool) (now : ℕ) (s : Schedule)
    → (set_schedule id name cron on now s).id ≡ s.id
set_schedule-id id name cron on now s = ground arith

update_schedule_rows-Kept :
    (id : ℕ) (name cron : Text) (on : Bool) (now : ℕ) (t : Tables)
    → IsNumbered t
    → Kept IsNumbered (update_schedule_rows id name cron on now t)
update_schedule_rows-Kept id name cron on now t c = record {
  distinct = map-Distinct _ t.schedules (set_schedule-id id name cron on now) c.distinct;
  below =
      All-map _ _ (set_schedule id name cron on now)
        (λ s lt. rw (set_schedule-id id name cron on now s) lt) t.schedules c.below;
}

delete_schedule_rows-Kept :
    (id : ℕ) (t : Tables) → IsNumbered t → Kept IsNumbered (delete_schedule_rows id t)
delete_schedule_rows-Kept id t c = record {
  distinct = keep_if-Distinct _ t.schedules c.distinct;
  below = All-keep_if _ _ _ (λ s lt k. lt) t.schedules c.below;
}

pub perform-IsNumbered :
    (c : Call) → (d : Db) → IsNumbered d.tables → IsNumbered (perform c d).tables
unfolding perform
perform-IsNumbered (create_schedule n c e) = λ d.
    exec-Keeps IsNumbered (insert_schedule n c e (d.clock d.step))
      (insert_schedule-Kept n c e (d.clock d.step)) d
perform-IsNumbered (update_schedule i n c e) = λ d.
    affected-Keeps IsNumbered (txt "db: update schedule") schedule_not_found
      (update_schedule_rows i n c e (d.clock d.step))
      (update_schedule_rows-Kept i n c e (d.clock d.step)) d
perform-IsNumbered (delete_schedule i) =
    affected-Keeps IsNumbered (txt "db: delete schedule") schedule_not_found
      (delete_schedule_rows i) (delete_schedule_rows-Kept i)
perform-IsNumbered (set_schedule_destinations i ls) =
    replacing-Keeps IsNumbered (λ id t. same_schedules t _ refl refl)
      (λ id l t c. elim (Bool-cases (link_allowed id l.destination_id t)) [
        | inl e ↦ rw e (same_schedules t _ refl refl c)
        | inr e ↦ rw e tt
      ])
      i ls
perform-IsNumbered (create_destination n y c s) = λ d.
    exec-Keeps IsNumbered (insert_destination n y c s (d.clock d.step))
      (λ t. same_schedules t _ refl refl) d
perform-IsNumbered (update_destination i n y c s) = λ d.
    affected-Keeps IsNumbered (txt "db: update destination") destination_not_found
      (update_destination_rows i n y c s (d.clock d.step)) (λ t. same_schedules t _ refl refl) d
perform-IsNumbered (delete_destination i) =
    bind-Keeps IsNumbered
      (wrapping (txt "db: check destination in use")
        (query (λ t. length (keep_if (links_to i) t.links))))
      _ (query-Keeps IsNumbered _)
      λ n.
        if-Keeps IsNumbered (ltb 0 n) (fail destination_in_use) _ (λ d h. h)
          (affected-Keeps IsNumbered (txt "db: delete destination") destination_not_found
            (delete_destination_rows i) (λ t. same_schedules t _ refl refl))
perform-IsNumbered (create_run s a) = exec-Keeps IsNumbered (insert_run s a) λ t c.
    elim (Bool-cases (refers (known_schedule t) s)) [
      | inl e ↦ rw e (same_schedules t _ refl refl c)
      | inr e ↦ rw e tt
    ]
perform-IsNumbered (finish_run i a st z f e) =
    affected-Keeps IsNumbered (txt "db: finish run") run_not_found (finish_run_rows i a st z f e)
      (λ t. same_schedules t _ refl refl)
perform-IsNumbered (create_run_destination_result r i st z e) =
    exec-Keeps IsNumbered (insert_result r i st z e) λ t c.
      elim (Bool-cases (known_run t r && refers (known_destination t) i)) [
        | inl x ↦ rw x (same_schedules t _ refl refl c)
        | inr x ↦ rw x tt
      ]
perform-IsNumbered (delete_run_destination_result_by_filename i f) =
    exec-Keeps IsNumbered (delete_results i f) (λ t. same_schedules t _ refl refl)
