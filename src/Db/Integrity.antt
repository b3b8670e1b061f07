-- ===== src/Db/Integrity.antt =====
-- The integrity of the whole database: its foreign keys and its numbers, which every write of internal/db keeps.
use loxbak.Base.{refl}
use loxbak.Db.{Tables}
use loxbak.Db.Accounts.{upsert_credential-Keeps, create_session-Keeps, delete_session-Keeps}
use loxbak.Db.Calls.{perform-IsConsistent}
use loxbak.Db.Consistency.{IsConsistent, IsConsistent-grow}
use loxbak.Db.Numbering.{IsNumbered, perform-IsNumbered}
use loxbak.Db.Writes.{Writes}

abbrev pub IsSafe : Tables → Type 0
IsSafe t = IsConsistent t × IsNumbered t

pub IsConsistent-Writes : Writes IsConsistent
IsConsistent-Writes = record {
  calls = perform-IsConsistent;
  upserts =
      upsert_credential-Keeps IsConsistent
        (λ cs n t. IsConsistent-grow t _ (λ i h. h) (λ i h. h) (λ i h. h) refl refl refl);
  logs_in =
      create_session-Keeps IsConsistent
        (λ ss t. IsConsistent-grow t _ (λ i h. h) (λ i h. h) (λ i h. h) refl refl refl);
  logs_out =
      delete_session-Keeps IsConsistent
        (λ ss t. IsConsistent-grow t _ (λ i h. h) (λ i h. h) (λ i h. h) refl refl refl);
}

IsNumbered-Writes : Writes IsNumbered
IsNumbered-Writes = record {
  calls = perform-IsNumbered;
  upserts =
      upsert_credential-Keeps IsNumbered
        (λ cs n t c. record { distinct = c.distinct; below = c.below });
  logs_in =
      create_session-Keeps IsNumbered (λ ss t c. record { distinct = c.distinct; below = c.below });
  logs_out =
      delete_session-Keeps IsNumbered (λ ss t c. record { distinct = c.distinct; below = c.below });
}

pub IsSafe-Writes : Writes IsSafe
IsSafe-Writes = record {
  calls = λ c d (p, q). (perform-IsConsistent c d p, perform-IsNumbered c d q);
  upserts = λ h o u b d (p, q).
      (IsConsistent-Writes.upserts h o u b d p, IsNumbered-Writes.upserts h o u b d q);
  logs_in =
      λ id e d (p, q). (IsConsistent-Writes.logs_in id e d p, IsNumbered-Writes.logs_in id e d q);
  logs_out =
      λ id d (p, q). (IsConsistent-Writes.logs_out id d p, IsNumbered-Writes.logs_out id d q);
}
