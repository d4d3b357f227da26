-- ===== src/Genesis/Forks.antt =====
-- eest_replay/chainspec.py and devnet_genesis.py: the tables of the forks.
use Prim.Native.Char.{Char}
use buildoor_tester.Base.{
  ℕ, zero, suc, ◌-◌, true, ◌&&◌, List, [], ◌∷◌, String, str_eq, code, leb, ℤ, pos, negsuc,
  if◌then◌else◌,
}
use buildoor_tester.Base.Json.{Json, num, str, obj, boolean, Dict, empty, entry, put}

-- Activated at block 0.
abbrev pub pre_merge_block_forks : List String
pre_merge_block_forks =
    "homesteadBlock" ∷ "eip150Block" ∷ "eip155Block" ∷ "eip158Block" ∷ "byzantiumBlock"
    ∷ "constantinopleBlock" ∷ "petersburgBlock" ∷ "istanbulBlock" ∷ "muirGlacierBlock"
    ∷ "berlinBlock" ∷ "londonBlock" ∷ "arrowGlacierBlock" ∷ "grayGlacierBlock"
    ∷ "mergeNetsplitBlock" ∷ []

-- Activated by a time: the key in the configuration, and the fork's name.
abbrev pub timestamp_forks : List (String × String)
timestamp_forks =
    ("shanghaiTime", "Shanghai")
    ∷ ("cancunTime", "Cancun")
    ∷ ("pragueTime", "Prague")
    ∷ ("osakaTime", "Osaka")
    ∷ ("bpo1Time", "BPO1")
    ∷ ("bpo2Time", "BPO2")
    ∷ ("amsterdamTime", "Amsterdam")
    ∷ []

-- The four entries that both configurations begin with.
abbrev pub merged_config : ℤ → Dict
merged_config chain_id = entry "chainId" (num chain_id) (
    entry "terminalTotalDifficulty" (num (pos 0)) (
      entry "terminalTotalDifficultyPassed" (boolean true)
        (entry "depositContractAddress" (str "0x00000000219ab540356cbb839cbe05303d7705fa") empty)))

abbrev pub put_zeros : List String → Dict → Dict
put_zeros [] d = d
put_zeros (k ∷ ks) d = put_zeros ks (put k (num (pos 0)) d)

-- The configuration before the forks that go by a time.
abbrev pub base_config : ℤ → Dict
base_config chain_id = put_zeros pre_merge_block_forks (merged_config chain_id)

-- The target, the maximum and the update fraction of the blobs.
abbrev blob_params : ℕ → ℕ → ℕ → Json
blob_params target most fraction = obj (
    entry "target" (num (pos target))
      (entry "max" (num (pos most)) (entry "baseFeeUpdateFraction" (num (pos fraction)) empty)))

abbrev pub blob_schedule : Dict
blob_schedule = entry "cancun" (blob_params 3 6 3338477) (
    entry "prague" (blob_params 6 9 5007716) (
      entry "osaka" (blob_params 6 9 5007716) (
        entry "bpo1" (blob_params 10 15 8346193) (
          entry "bpo2" (blob_params 14 21 11684671)
            (entry "amsterdam" (blob_params 14 21 11684671) empty)))))

abbrev letters : List Char
letters =
    "a" ∷ "b" ∷ "c" ∷ "d" ∷ "e" ∷ "f" ∷ "g" ∷ "h" ∷ "i" ∷ "j" ∷ "k" ∷ "l" ∷ "m" ∷ "n" ∷ "o" ∷ "p"
    ∷ "q" ∷ "r" ∷ "s" ∷ "t" ∷ "u" ∷ "v" ∷ "w" ∷ "x" ∷ "y" ∷ "z" ∷ []

abbrev nth_or : Char → List Char → ℕ → Char
nth_or c [] i = c
nth_or c (x ∷ xs) zero = x
nth_or c (x ∷ xs) (suc i) = nth_or c xs i

abbrev lower_char : Char → Char
lower_char c = if leb b'A' (code c) && leb (code c) b'Z' then nth_or c letters (code c - 65) else c

-- `name.lower()` of an ASCII name.
abbrev pub lower : String → String
lower String.[] = String.[]
lower (String.◌∷◌ c s) = String.◌∷◌ (lower_char c) (lower s)

abbrev pub index_from : ℕ → String → List (String × String) → ℤ
index_from i fork [] = negsuc 0
index_from i fork ((key, name) ∷ fs) =
    let rest = index_from (suc i) fork fs in if str_eq name fork then pos i else rest

-- The place of a fork in the order of time, or -1.
unfoldable pub fork_index : String → ℤ
fork_index fork = index_from 0 fork timestamp_forks
