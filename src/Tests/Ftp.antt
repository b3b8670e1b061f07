-- ===== src/Tests/Ftp.antt =====
-- Retrying against a network that fails a number of times, which is the state.
use loxbak.Base.{ℕ, zero, suc, ◌≡◌, refl, Bool, true, false, ltb, some, errorf, Result, ok, err}
use loxbak.Base.Text.{txt}
use loxbak.Ftp.{context_error, with_retry, retry_loop, file_up_to_date, regular, file}

-- The attempt behind `n` failures to come.
abbrev flaky : ℕ → Result ℕ × ℕ
flaky zero = (ok 42, zero)
flaky (suc n) = (err (errorf (txt "550 not ready")), n)

abbrev patient : ℕ → ℕ → Bool × ℕ
patient delay n = (true, n)

-- The context is done within a second.
abbrev hurried : ℕ → ℕ → Bool × ℕ
hurried delay n = (ltb delay 1000, n)

recovered : with_retry patient flaky 2 ≡ (ok 42, 0)
unfolding with_retry retry_loop
recovered = refl

cancelled : (with_retry hurried flaky 5).0 ≡ err context_error
unfolding with_retry retry_loop
cancelled = refl

up_to_date :
    (file_up_to_date
        (regular 10 1000)
        (record { name = txt "a"; size = 10; time = some 1120; kind = file })
      ≡ true)
    × (file_up_to_date
          (regular 10 1000)
          (record { name = txt "a"; size = 10; time = some 879; kind = file })
        ≡ false)
unfolding file_up_to_date
up_to_date = (refl, refl)
