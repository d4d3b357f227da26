-- ===== src/Tests/Genesis.antt =====
-- The genesis files at concrete inputs.
use buildoor_tester.Base.{
  ℕ, ◌≡◌, refl, false, none, some, List, [], ◌∷◌, leb, String, pos, negsuc, ok,
}
use buildoor_tester.Base.Numeral.{decimal}
use buildoor_tester.Base.Json.{num, Dict}
use buildoor_tester.Genesis.Forks.{fork_index}
use buildoor_tester.Genesis.Devnet.{build_devnet_genesis, norm}
use buildoor_tester.Genesis.Chainspec.{Account, GenesisSource, build_genesis, addr_text}
use buildoor_tester.Genesis.Prefix.{config_at, at_zero}
use buildoor_tester.Genesis.Forked.{
  devnet_genesis-activates, fixture_genesis-activates, unlisted_fork_activates_all,
}
use buildoor_tester.Genesis.Blobs.{schedule_at, scheduled, devnet_genesis-schedules}
use buildoor_tester.Genesis.Accounts.{wei, asked_balance, balance_at, devnet_genesis-funds}
use buildoor_tester.Genesis.Fixtures.{nonce_at, last_account, fixture_genesis-accounts}
use buildoor_tester.Tests.{numbers_only, source_for}

devnet_genesis-schedules_example :
    (g : Dict) × (build_devnet_genesis "Prague" (pos 1) [] (pos 25000000) ≡ ok g)
    × (schedule_at "cancun" g ≡ scheduled 2 1 "Cancun")
devnet_genesis-schedules_example = devnet_genesis-schedules 2 1 (pos 1) [] (pos 25000000) refl refl

-- One address with and without `0x`.
abbrev prefunded : List (String × ℕ)
prefunded = ("0xab", 5) ∷ ("ab", 7) ∷ ("0xcd", 1) ∷ []

asked : asked_balance "0xab" prefunded ≡ some (pos 7)
unfolding norm
asked = refl

devnet_genesis-funds_example :
    (g : Dict) × (build_devnet_genesis "Prague" (pos 1) (wei prefunded) (pos 25000000) ≡ ok g)
    × (balance_at "0xab" g ≡ asked_balance "0xab" prefunded)
devnet_genesis-funds_example = devnet_genesis-funds 2 (pos 1) prefunded (pos 25000000) "0xab" refl

abbrev account : Account numbers_only
account = record {
  balance = 1000;
  nonce = 0;
  nonce_number = pos 0;
  code = 0;
  has_code = false;
  storage = (1, 2) ∷ [];
}

abbrev source : GenesisSource numbers_only
source = record (source_for "Prague") { pre = (17, some account) ∷ (18, none) ∷ [] }

listed : last_account numbers_only "0x17" source.pre ≡ some account
unfolding addr_text decimal
listed = refl

fixture_genesis-accounts_example :
    (balance_at "0x17" (build_genesis numbers_only source) ≡ some (pos 1000))
    × (nonce_at "0x17" (build_genesis numbers_only source) ≡ some (pos 0))
fixture_genesis-accounts_example =
    fixture_genesis-accounts numbers_only source "0x17" account 1000 0 listed (refl, refl)
      (refl, refl) refl

devnet_genesis-activates_example :
    (g : Dict) × (build_devnet_genesis "Prague" (pos 1) [] (pos 25000000) ≡ ok g)
    × (config_at "osakaTime" g ≡ at_zero (leb 3 2))
devnet_genesis-activates_example = devnet_genesis-activates 2 3 (pos 1) [] (pos 25000000) refl refl

fixture_genesis-activates_example :
    config_at "cancunTime" (build_genesis numbers_only (source_for "Prague")) ≡ at_zero (leb 1 2)
fixture_genesis-activates_example =
    fixture_genesis-activates numbers_only (source_for "Prague") 2 1 refl refl

paris_unlisted : fork_index "Paris" ≡ negsuc 0
unfolding fork_index
paris_unlisted = refl

unlisted_fork_activates_all_example :
    config_at "amsterdamTime" (build_genesis numbers_only (source_for "Paris")) ≡ some (num (pos 0))
unlisted_fork_activates_all_example =
    unlisted_fork_activates_all numbers_only (source_for "Paris") 6 paris_unlisted refl
