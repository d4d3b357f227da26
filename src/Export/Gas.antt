-- ===== src/Export/Gas.antt =====
-- eest_replay/export.py: the gas of a benchmark run, and the start of the derived accounts.
use buildoor_tester.Base.{
  ℕ, zero, suc, ◌+◌, ◌*◌, ◌/◌, ◌^◌, ◌≤◌, ◌<◌, ◌≡◌, refl, Bool, true, ◌&&◌, ◌||◌, Option, none, some,
  is_some, is_none, String, ℤ, pos, if◌then◌else◌, Option-cases, inl, inr, not, Outcome, ok, raised,
  arith,
}
use buildoor_tester.Base.Numeral.{decimal, int_of, int_of-decimal}
use text.Mathlib.Text.{find?}

abbrev pub fallback_benchmark_gas_millions : ℕ
fallback_benchmark_gas_millions = 16

-- `_is_benchmark_run`.
unfoldable pub is_benchmark_run : String → Bool → Bool
is_benchmark_run test_selector include_benchmark =
    include_benchmark || is_some (find? test_selector "tests/benchmark")

-- `(cap // 1_000_000) if cap else 16`.
unfoldable pub benchmark_millions : Option ℕ → ℕ
benchmark_millions none = fallback_benchmark_gas_millions
benchmark_millions (some zero) = fallback_benchmark_gas_millions
benchmark_millions (some (suc c)) = suc c / 1000000

-- `str(secrets.randbits(240) + 2**16)`, where `randbits k` is what `secrets.randbits(k)` draws.
unfoldable pub random_eoa_start : (ℕ → ℕ) → String
random_eoa_start randbits = decimal (pos (randbits 240 + 2 ^ 16))

-- What the import, the lookup of the fork's class and the call of its `transaction_gas_limit_cap`
-- give: no class, an exception, or the cap.
module _ (lookup : String → Option (Outcome (Option ℕ))) where
  abbrev cap_or_none : Option (Outcome (Option ℕ)) → Option ℕ
  cap_or_none none = none
  cap_or_none (some (ok cap)) = cap
  cap_or_none (some (raised e)) = none

  unfoldable pub fork_tx_gas_cap : String → Option ℕ
  fork_tx_gas_cap fork = cap_or_none (lookup fork)

  unfoldable pub default_gas_benchmark_values : String → String
  unfolding fork_tx_gas_cap benchmark_millions
  default_gas_benchmark_values fork = decimal (pos (benchmark_millions (fork_tx_gas_cap fork)))

  abbrev by_cap : String → Option ℕ → Option String × Option ℤ
  by_cap fork (some cap) = (none, some (pos cap))
  by_cap fork none = (some (default_gas_benchmark_values fork), none)

  -- `_resolve_benchmark_gas`.
  unfoldable pub resolve_benchmark_gas :
      String → String → Bool → Option String → Option ℤ → Option String × Option ℤ
  unfolding fork_tx_gas_cap default_gas_benchmark_values is_benchmark_run
  resolve_benchmark_gas fork test_selector include_benchmark values limit =
      if is_none values && (is_none limit && is_benchmark_run test_selector include_benchmark)
      then by_cap fork (fork_tx_gas_cap fork)
      else (values, limit)

  abbrev limit_of : Option ℕ → Option ℤ
  limit_of none = none
  limit_of (some cap) = some (pos cap)

  -- A benchmark run without an override gets exactly one of the two options, and the limit it gets
  -- is the cap of its fork; any override is left as it is given.
  pub resolve_benchmark_gas_lem :
      (fork test_selector : String) (flag : Bool) (v : String) (l : ℤ) (values : Option String)
      (limit : Option ℤ)
      → is_benchmark_run test_selector flag ≡ true
      → let resolve = resolve_benchmark_gas fork test_selector flag in
        (is_some (resolve none none).0 ≡ not (is_some (resolve none none).1))
        × ((resolve none none).1 ≡ limit_of (fork_tx_gas_cap fork))
        × (resolve (some v) limit ≡ (some v, limit))
        × (resolve values (some l) ≡ (values, some l))
  unfolding resolve_benchmark_gas
  resolve_benchmark_gas_lem fork test_selector flag v l values limit run =
      elim (Option-cases (fork_tx_gas_cap fork)) [
        | inl is ↦ (rw run (rw is refl), rw run (rw is refl), refl, ground arith)
        | inr (cap, is) ↦ (rw run (rw is refl), rw run (rw is refl), refl, ground arith)
      ]

-- The order of the curve secp256k1: private keys lie below it.
abbrev pub curve_order : ℕ
curve_order = 115792089237316195423570985008687907852837564279074904382605163141518161494337

-- With the documented behaviour of `secrets.randbits`, that `k` bits are drawn: the start reads back
-- as a number, and it and the keys of the next `2 ^ 240` accounts are positive and below the order
-- of the curve.
pub random_eoa_start-bounds :
    (randbits : ℕ → ℕ) (i : ℕ)
    → ((k : ℕ) → randbits k < 2 ^ k)
    → i < 2 ^ 240
    → (n : ℕ) × (int_of 10 (random_eoa_start randbits) ≡ some (pos n))
      × (0 < n)
      × (n + i < curve_order)
unfolding random_eoa_start
random_eoa_start-bounds randbits i law far =
    let drawn : randbits 240 < 2 ^ 240 = law 240 in
    (
      randbits 240 + 2 ^ 16,
      int_of-decimal (randbits 240 + 2 ^ 16),
      omega arith,
      omega (arith, drawn),
    )

-- `DEFAULT_EOA_START`, the text of a number that is written in hexadecimal.
abbrev pub default_eoa_start : String
default_eoa_start = "7689318425915528602346510723233181380881209919202693705745230188025481265153"

default_eoa_start_lem : int_of 10 default_eoa_start ≡ some (pos (17 * 2 ^ 248 + 1))
unfolding int_of
default_eoa_start_lem = refl

-- The default start reads back as a number, and it and the keys of the next `2 ^ 240` accounts are
-- positive and below the order of the curve.
pub default_eoa_start-bounds :
    (i : ℕ)
    → i ≤ 2 ^ 240
    → (n : ℕ) × (int_of 10 default_eoa_start ≡ some (pos n)) × (0 < n) × (n + i < curve_order)
default_eoa_start-bounds i few = (17 * 2 ^ 248 + 1, default_eoa_start_lem, omega arith, omega arith)
