-- ===== src/Genesis/Activation.antt =====
-- eest_replay/devnet_genesis.py: which forks `build_devnet_genesis` activates.
use buildoor_tester.Base.{
  ℕ, zero, suc, ◌+◌, ◌≡◌, refl, subst, false, none, some, List, [], ◌∷◌, All, get_elem?, String,
  str_eq, leb, ℤ, pos, arith, if◌then◌else◌,
}
use buildoor_tester.Base.Json.{num, Dict, get, put, get-put, get-put_self}
use buildoor_tester.Genesis.Forks.{timestamp_forks, blob_schedule, lower}
use buildoor_tester.Genesis.Devnet.{activate, with_schedule}

abbrev pub Table : Type 0
Table = List (String × String)

-- Two keys of the table are different texts.
abbrev Apart : String × String → String × String → Type 0
Apart e e' = (str_eq e.0 e'.0 ≡ false) × (str_eq e'.0 e.0 ≡ false)

abbrev pub Distinct : Table → Type 0
Distinct [] = Unit
Distinct (e ∷ fs) = All (Apart e) fs × Distinct fs

pub timestamp_forks-Distinct : Distinct timestamp_forks
timestamp_forks-Distinct = ground arith

pub All-at :
    (P : String × String → Type 0) (fs : Table) (j : ℕ) {e : String × String}
    → All P fs
    → get_elem? fs j ≡ some e
    → P e
All-at P [] j h is = cc
All-at P (f ∷ fs) zero h is = subst P (cc) h.0
All-at P (f ∷ fs) (suc j) h is = All-at P fs j h.1 is

-- A key that the table does not hold keeps its value.
activate-other :
    (target : ℤ) (i : ℕ) (fs : Table) (config blobs : Dict) (key : String)
    → All (λ e. str_eq e.0 key ≡ false) fs
    → get key (activate target i fs config blobs).0 ≡ get key config
unfolding activate
activate-other target i [] config blobs key h = refl
activate-other target i ((k, name) ∷ fs) config blobs key h = ground (
  arith,
  get-put k key (num (pos 0)) config,
  activate-other target (suc i) fs (put k (num (pos 0)) config)
      (with_schedule (get (lower name) blob_schedule) (lower name) blobs) key h.1,
)

Apart-left :
    (e : String × String) (fs : Table) → All (Apart e) fs → All (λ f. str_eq f.0 e.0 ≡ false) fs
Apart-left e [] h = tt
Apart-left e (f ∷ fs) h = (h.0.1, Apart-left e fs h.1)

-- The first key of the table.
activate-head :
    (m i : ℕ) (k n : String) (fs : Table) (config blobs : Dict)
    → Distinct ((k, n) ∷ fs)
    → get k config ≡ none
    → get k (activate (pos m) i ((k, n) ∷ fs) config blobs).0
      ≡ (if leb (i + 0) m then some (num (pos 0)) else none)
unfolding activate
activate-head m i k n fs config blobs d new =
    let config' = put k (num (pos 0)) config in
    let blobs' = with_schedule (get (lower n) blob_schedule) (lower n) blobs in
    ground (
      arith,
      get-put_self k (num (pos 0)) config,
      activate-other (pos m) (suc i) fs config' blobs' k (Apart-left (k, n) fs d.0),
    )

-- The key in the place `j` is activated if that place is not behind the target.
pub activate-at :
    (m i : ℕ) (fs : Table) (config blobs : Dict) (j : ℕ) (key name : String)
    → Distinct fs
    → get_elem? fs j ≡ some (key, name)
    → get key config ≡ none
    → get key (activate (pos m) i fs config blobs).0
      ≡ (if leb (i + j) m then some (num (pos 0)) else none)
unfolding activate
activate-at m i [] config blobs j key name d is new = cc
activate-at m i ((k, n) ∷ fs) config blobs zero key name d is new =
    let same : k ≡ key = cc is in
    subst
      (λ x.
        get x (activate (pos m) i ((k, n) ∷ fs) config blobs).0
        ≡ (if leb (i + 0) m then some (num (pos 0)) else none))
      same (activate-head m i k n fs config blobs d (rw same new))
activate-at m i ((k, n) ∷ fs) config blobs (suc j) key name d is new = ground (
  arith,
  get-put k key (num (pos 0)) config,
  (All-at (Apart (k, n)) fs j d.0 is).0,
  activate-at m (suc i) fs (put k (num (pos 0)) config)
      (with_schedule (get (lower n) blob_schedule) (lower n) blobs) j key name d.1 is,
)
