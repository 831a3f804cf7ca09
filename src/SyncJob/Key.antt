-- ===== src/SyncJob/Key.antt =====
-- The deduplication key of a job.
pub mod Distinct
use balance_tracker.Prelude.{
  ℕ, zero, suc, ◌+◌, ◌/◌, ◌%◌, Option, none, some, [], ◌∷◌, ◌++◌, ltb, if◌then◌else◌, or_else,
}
use balance_tracker.Prelude.Text.{Text, codes}
use balance_tracker.Json.{Fields, end}

digits_onto : ℕ → ℕ → Text → Text
digits_onto zero n acc = acc
digits_onto (suc f) n acc =
    let rest = digits_onto f (n / 10) ((48 + n % 10) ∷ acc) in
    if ltb n 10 then (48 + n) ∷ acc else rest

-- `str(n)`; a number has fewer digits than `n + 1`.
unfoldable pub show_nat : ℕ → Text
unfolding digits_onto
show_nat n = digits_onto (suc n) n []

unfoldable pub integration_marker : Option ℕ → Text
unfolding show_nat
integration_marker none = codes "null"
integration_marker (some i) = show_nat i

-- `fingerprint` is the hexadecimal SHA-256 of the payload's canonical JSON text.
unfoldable pub build_dedupe_key : (Fields → Text) → ℕ → Option ℕ → Text → Option Fields → Text
unfolding show_nat integration_marker
build_dedupe_key fingerprint org integration job_type payload =
    show_nat org
    ++ (58
        ∷ (integration_marker integration
            ++ (58 ∷ (job_type ++ (58 ∷ fingerprint (or_else payload end))))))
