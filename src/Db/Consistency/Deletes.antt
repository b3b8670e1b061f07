-- ===== src/Db/Consistency/Deletes.antt =====
-- The writes that remove rows or replace links keep the tables consistent.
use loxbak.Base.{
  ℕ, suc, ◌≡◌, refl, ◌∙◌, Bool, true, false, ◌&&◌, Option, none, some, List, [], ◌∷◌, ◌++◌, arith,
  ◌==◌, not, any_of, keep_if, All-append, All-imp, All-map, All-keep_if, any_of-append,
  any_of-keep_if, any_of-keep_if-false, and_true, Bool-cases, inl, inr, length, ltb, any_of-map,
}
use loxbak.Base.Results.{schedule_not_found, destination_not_found, destination_in_use}
use loxbak.Base.Text.{Text, txt}
use loxbak.Db.{ScheduleDestination, Tables}
use loxbak.Db.Sql.{
  Keeps, Kept, query-Keeps, exec-Keeps, bind-Keeps, if-Keeps, query, wrapping, fail,
}
use loxbak.Db.Destinations.{
  is_destination, links_to, forget_id, forget_destination, delete_destination_rows,
  delete_destination,
}
use loxbak.Db.Schedules.{
  is_schedule, links_of, forget_schedule, delete_schedule_rows, delete_schedule, clear_links,
  link_allowed, insert_link, set_schedule_destinations,
}
use loxbak.Db.Runs.{
  refers, known_schedule, known_destination, delete_results,
  delete_run_destination_result_by_filename,
}
use loxbak.Db.Replacing.{replacing-Keeps}
use loxbak.Db.Consistency.{same_link, UniqueLinks, IsConsistent}
use loxbak.Db.Sql.{affected-Keeps}

keep_if-UniqueLinks :
    (q : ScheduleDestination → Bool) (ls : List ScheduleDestination)
    → UniqueLinks ls
    → UniqueLinks (keep_if q ls)
keep_if-UniqueLinks q [] u = tt
keep_if-UniqueLinks q (l ∷ ls) (n, u) = elim (Bool-cases (q l)) [
  | inl e ↦ rw e (any_of-keep_if-false (same_link l) q ls n, keep_if-UniqueLinks q ls u)
  | inr e ↦ rw e (keep_if-UniqueLinks q ls u)
]

known_schedule-delete :
    (id i : ℕ) (t : Tables)
    → known_schedule t i ≡ true
    → (i == id) ≡ false
    → any_of (is_schedule i) (keep_if (λ s. not (is_schedule id s)) t.schedules) ≡ true
known_schedule-delete id i t h ne =
    any_of-keep_if (is_schedule i) _ (λ s p. ground arith) t.schedules ∙ h

known_destination-delete :
    (id i : ℕ) (t : Tables)
    → known_destination t i ≡ true
    → (i == id) ≡ false
    → any_of (is_destination i) (keep_if (λ s. not (is_destination id s)) t.destinations) ≡ true
known_destination-delete id i t h ne =
    any_of-keep_if (is_destination i) _ (λ s p. ground arith) t.destinations ∙ h

refers-forget_id :
    (id : ℕ) (p q : ℕ → Bool)
    → ((i : ℕ) → p i ≡ true → (i == id) ≡ false → q i ≡ true)
    → (o : Option ℕ) → refers p o ≡ true
    → refers q (forget_id id o) ≡ true
refers-forget_id id p q h none e = refl
refers-forget_id id p q h (some i) e = elim (Bool-cases (i == id)) [
  | inl same ↦ rw same
  | inr other ↦ rw other (h i e other)
]

delete_schedule_rows-Kept :
    (id : ℕ) (t : Tables) → IsConsistent t → Kept IsConsistent (delete_schedule_rows id t)
delete_schedule_rows-Kept id t c = record {
  link_schedules =
      All-keep_if _ _ _ (λ l h k. known_schedule-delete id l.schedule_id t h (ground arith)) t.links
        c.link_schedules;
  link_destinations = All-keep_if _ _ _ (λ l h k. h) t.links c.link_destinations;
  link_unique = keep_if-UniqueLinks _ t.links c.link_unique;
  run_schedules =
      All-map _ _ (forget_schedule id)
        (λ r. refers-forget_id id _ _ (λ i. known_schedule-delete id i t) r.schedule_id) t.runs
        c.run_schedules;
  result_runs =
      All-imp _ _ (λ r h. any_of-map _ (forget_schedule id) (λ x. refl) t.runs ∙ h) t.results
        c.result_runs;
  result_destinations = c.result_destinations;
}

delete_destination_rows-Kept :
    (id : ℕ) (t : Tables) → IsConsistent t → Kept IsConsistent (delete_destination_rows id t)
delete_destination_rows-Kept id t c = record {
  link_schedules = All-keep_if _ _ _ (λ l h k. h) t.links c.link_schedules;
  link_destinations =
      All-keep_if _ _ _ (λ l h k. known_destination-delete id l.destination_id t h (ground arith))
        t.links c.link_destinations;
  link_unique = keep_if-UniqueLinks _ t.links c.link_unique;
  run_schedules = c.run_schedules;
  result_runs = All-map _ _ (forget_destination id) (λ r h. h) t.results c.result_runs;
  result_destinations =
      All-map _ _ (forget_destination id)
        (λ r. refers-forget_id id _ _ (λ i. known_destination-delete id i t) r.destination_id)
        t.results c.result_destinations;
}

pub delete_schedule-Keeps : (id : ℕ) → Keeps IsConsistent (delete_schedule id)
unfolding delete_schedule
delete_schedule-Keeps id =
    affected-Keeps IsConsistent (txt "db: delete schedule") schedule_not_found
      (delete_schedule_rows id) (delete_schedule_rows-Kept id)

pub delete_destination-Keeps : (id : ℕ) → Keeps IsConsistent (delete_destination id)
unfolding delete_destination
delete_destination-Keeps id =
    bind-Keeps IsConsistent
      (wrapping (txt "db: check destination in use")
        (query (λ t. length (keep_if (links_to id) t.links))))
      _ (query-Keeps IsConsistent _)
      λ n.
        if-Keeps IsConsistent (ltb 0 n) (fail destination_in_use) _ (λ d h. h)
          (affected-Keeps IsConsistent (txt "db: delete destination") destination_not_found
            (delete_destination_rows id) (delete_destination_rows-Kept id))

pub delete_run_destination_result_by_filename-Keeps :
    (id : ℕ) (filename : Text)
    → Keeps IsConsistent (delete_run_destination_result_by_filename id filename)
unfolding delete_run_destination_result_by_filename
delete_run_destination_result_by_filename-Keeps id filename =
    exec-Keeps IsConsistent (delete_results id filename) λ t c. record {
      link_schedules = c.link_schedules;
      link_destinations = c.link_destinations;
      link_unique = c.link_unique;
      run_schedules = c.run_schedules;
      result_runs = All-keep_if _ _ _ (λ r h k. h) t.results c.result_runs;
      result_destinations = All-keep_if _ _ _ (λ r h k. h) t.results c.result_destinations;
    }

clear_links-Kept : (id : ℕ) (t : Tables) → IsConsistent t → Kept IsConsistent (clear_links id t)
clear_links-Kept id t c = record {
  link_schedules = All-keep_if _ _ _ (λ l h k. h) t.links c.link_schedules;
  link_destinations = All-keep_if _ _ _ (λ l h k. h) t.links c.link_destinations;
  link_unique = keep_if-UniqueLinks _ t.links c.link_unique;
  run_schedules = c.run_schedules;
  result_runs = c.result_runs;
  result_destinations = c.result_destinations;
}

UniqueLinks-append :
    (m : ScheduleDestination) (ls : List ScheduleDestination)
    → UniqueLinks ls
    → any_of (λ l. links_of m.schedule_id l && l.destination_id == m.destination_id) ls ≡ false
    → UniqueLinks (ls ++ m ∷ [])
UniqueLinks-append m [] u n = (refl, tt)
UniqueLinks-append m (l ∷ ls) (x, u) n = (
  rw (any_of-append (same_link l) ls (m ∷ [])) (ground arith),
  UniqueLinks-append m ls u (ground arith),
)

add_link-IsConsistent :
    (m : ScheduleDestination) (t : Tables)
    → link_allowed m.schedule_id m.destination_id t ≡ true
    → IsConsistent t
    → IsConsistent (record t { links = t.links ++ m ∷ []; next_link = suc t.next_link })
add_link-IsConsistent m t e c =
    let (a, b) = and_true e in
    let (x, y) = and_true a in
    record {
      link_schedules = All-append _ t.links (m ∷ []) c.link_schedules (x, tt);
      link_destinations = All-append _ t.links (m ∷ []) c.link_destinations (y, tt);
      link_unique = UniqueLinks-append m t.links c.link_unique (ground arith);
      run_schedules = c.run_schedules;
      result_runs = c.result_runs;
      result_destinations = c.result_destinations;
    }

insert_link-Kept :
    (id : ℕ) (l : ScheduleDestination) (t : Tables)
    → IsConsistent t
    → Kept IsConsistent (insert_link id l t)
insert_link-Kept id l t c = elim (Bool-cases (link_allowed id l.destination_id t)) [
  | inl e ↦ rw e (add_link-IsConsistent _ t e c)
  | inr e ↦ rw e tt
]

pub set_schedule_destinations-Keeps :
    (id : ℕ) (ls : List ScheduleDestination) → Keeps IsConsistent (set_schedule_destinations id ls)
set_schedule_destinations-Keeps =
    replacing-Keeps IsConsistent (λ id. clear_links-Kept id) (λ id l. insert_link-Kept id l)
