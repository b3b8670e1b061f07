-- ===== src/Db/Replacing.antt =====
-- What `SetScheduleDestinations` keeps (internal/db/schedules.go), of which each statement keeps it.
use loxbak.Base.{ℕ, List, [], ◌∷◌, Result, ok, err}
use loxbak.Base.Text.{txt}
use loxbak.Db.{ScheduleDestination, Tables, Db}
use loxbak.Db.Schedules.{
  clear_links, insert_link, insert_links, replace_links, set_schedule_destinations,
}
use loxbak.Db.Sql.{
  Keeps, Kept, query-Keeps, exec-Keeps, bind-Keeps, query, exec, wrapping, roll_back,
}

module _ (P : Tables → Type 0) where
  roll_back-keeps :
      {A : Type 0} (t : Tables) (r : Result A × Db)
      → P t
      → P r.1.tables
      → P (roll_back t r).1.tables
  roll_back-keeps t (ok a, d) h k = k
  roll_back-keeps t (err e, d) h k = h

  module _ (clears : (id : ℕ) (t : Tables) → P t → Kept P (clear_links id t))
      (inserts : (id : ℕ) (l : ScheduleDestination) (t : Tables)
        → P t
        → Kept P (insert_link id l t)) where
    insert_links-Keeps : (id : ℕ) (ls : List ScheduleDestination) → Keeps P (insert_links id ls)
    unfolding insert_links
    insert_links-Keeps id [] = λ d h. h
    insert_links-Keeps id (l ∷ ls) =
        bind-Keeps P (wrapping (txt "db: insert schedule destination") (exec (insert_link id l))) _
          (exec-Keeps P (insert_link id l) (inserts id l)) (λ _. insert_links-Keeps id ls)

    replace_links-Keeps : (id : ℕ) (ls : List ScheduleDestination) → Keeps P (replace_links id ls)
    unfolding replace_links
    replace_links-Keeps id ls =
        bind-Keeps P (wrapping (txt "db: set schedule destinations") (query (λ _. tt))) _
          (query-Keeps P _)
          λ _.
            bind-Keeps P (wrapping (txt "db: clear schedule destinations") (exec (clear_links id)))
              _ (exec-Keeps P (clear_links id) (clears id))
              λ _.
                bind-Keeps P (insert_links id ls) _ (insert_links-Keeps id ls)
                  λ _. query-Keeps P (λ _. tt)

    pub replacing-Keeps :
        (id : ℕ) (ls : List ScheduleDestination) → Keeps P (set_schedule_destinations id ls)
    unfolding set_schedule_destinations
    replacing-Keeps id ls d h =
        roll_back-keeps d.tables (replace_links id ls d) h (replace_links-Keeps id ls d h)
