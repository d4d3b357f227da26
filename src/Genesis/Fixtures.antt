-- ===== src/Genesis/Fixtures.antt =====
-- eest_replay/chainspec.py: the accounts of a fixture's genesis, read back.
use buildoor_tester.Base.{
  ℕ, zero, suc, ◌≡◌, refl, ◌∙◌, ap, Bool, true, false, Bool-cases, inl, inr, Option, none, some,
  List, [], ◌∷◌, String, str_eq, ℤ, pos, arith, if◌then◌else◌,
}
use buildoor_tester.Base.Numeral.{int_of, int_of-hex}
use buildoor_tester.Base.Json.{Json, str, obj, Dict, empty, get, put, get-put}
use buildoor_tester.Testing.{Testing}
use buildoor_tester.Genesis.Chainspec.{
  hex_value, addr_text, Account, alloc_entry, alloc_of, is_zero, storage_of, with_storage,
  GenesisSource, build_genesis,
}
use buildoor_tester.Genesis.Forked.{get-put_some}
use buildoor_tester.Genesis.Accounts.{number_in, balance_in, account_in, balance_at}

abbrev or_zero : Option Json → Option ℤ
or_zero none = some (pos 0)
or_zero (some j) = number_in (some j)

-- An account without a nonce in the file has the nonce 0.
abbrev pub nonce_in : Option Json → Option ℤ
nonce_in (some (obj account)) = or_zero (get "nonce" account)
nonce_in _ = none

abbrev pub nonce_at : String → Dict → Option ℤ
nonce_at addr g = nonce_in (account_in addr (get "alloc" g))

module _ (T : Testing) where
  open T use {Value, is_none, as_int}

  abbrev later : Option (Account T) → Option (Account T) → Option (Account T)
  later none o = o
  later (some b) o = some b

  -- The account that the fixture gives an address: the last one that is not `None`.
  abbrev pub last_account : String → List (Value × Option (Account T)) → Option (Account T)
  last_account addr [] = none
  last_account addr ((key, none) ∷ ps) = last_account addr ps
  last_account addr ((key, some a) ∷ ps) =
      later (last_account addr ps) (if str_eq (addr_text T key) addr then some a else none)

  abbrev or_entry : Option (Account T) → Option Json → Option Json
  or_entry none o = o
  or_entry (some a) o = some (obj (alloc_entry T a))

  or_entry-later :
      (o : Option (Account T)) (b : Bool) (a : Account T) (old : Option Json)
      → or_entry o (if b then some (obj (alloc_entry T a)) else old)
        ≡ or_entry (later o (if b then some a else none)) old
  or_entry-later (some c) b a old = refl
  or_entry-later none true a old = refl
  or_entry-later none false a old = refl

  alloc_of-last :
      (ps : List (Value × Option (Account T))) (addr : String) (alloc : Dict)
      → get addr (alloc_of T ps alloc) ≡ or_entry (last_account addr ps) (get addr alloc)
  unfolding alloc_of
  alloc_of-last [] addr alloc = refl
  alloc_of-last ((key, none) ∷ ps) addr alloc = alloc_of-last ps addr alloc
  alloc_of-last ((key, some a) ∷ ps) addr alloc =
      alloc_of-last ps addr (put (addr_text T key) (obj (alloc_entry T a)) alloc)
      ∙ ap (or_entry (last_account addr ps))
          (get-put (addr_text T key) addr (obj (alloc_entry T a)) alloc)
      ∙ or_entry-later (last_account addr ps) (str_eq (addr_text T key) addr) a (get addr alloc)

  get-with_storage :
      (key : String) (s : List (Value × Value)) (d : Dict)
      → str_eq "storage" key ≡ false
      → get key (with_storage T s d) ≡ get key d
  get-with_storage key [] d apart = refl
  get-with_storage key (e ∷ s) d apart =
      get-put "storage" key (obj (storage_of T (e ∷ s) empty)) d ∙ rw apart refl

  balance-alloc_entry :
      (a : Account T) → get "balance" (alloc_entry T a) ≡ some (str (hex_value T a.balance))
  unfolding alloc_entry get put
  balance-alloc_entry a =
      get-with_storage "balance" a.storage _ refl ∙ elim (Bool-cases (is_zero T a.nonce_number)) [
        | inl z ↦ elim (Bool-cases a.has_code) [ inl c ↦ rw (z, c) refl | inr c ↦ rw (z, c) refl ]
        | inr z ↦ elim (Bool-cases a.has_code) [ inl c ↦ rw (z, c) refl | inr c ↦ rw (z, c) refl ]
      ]

  nonce-alloc_entry :
      (a : Account T)
      → get "nonce" (alloc_entry T a)
        ≡ (if is_zero T a.nonce_number then none else some (str (hex_value T a.nonce)))
  unfolding alloc_entry get put
  nonce-alloc_entry a =
      get-with_storage "nonce" a.storage _ refl ∙ elim (Bool-cases (is_zero T a.nonce_number)) [
        | inl z ↦ elim (Bool-cases a.has_code) [ inl c ↦ rw (z, c) refl | inr c ↦ rw (z, c) refl ]
        | inr z ↦ elim (Bool-cases a.has_code) [ inl c ↦ rw (z, c) refl | inr c ↦ rw (z, c) refl ]
      ]

  -- A value that is a number of so much.
  abbrev pub IsNumber : Value → ℕ → Type 0
  IsNumber v n = (is_none v ≡ false) × (as_int v ≡ some (pos n))

  hex_value-IsNumber : (v : Value) (n : ℕ) → IsNumber v n → int_of 16 (hex_value T v) ≡ some (pos n)
  unfolding hex_value
  hex_value-IsNumber v n (present, is) = rw (present, is) (int_of-hex n)

  nonce_read :
      (a : Account T) (n : ℕ)
      → IsNumber a.nonce n
      → a.nonce_number ≡ pos n
      → or_zero (get "nonce" (alloc_entry T a)) ≡ some (pos n)
  nonce_read a zero is same =
      ap or_zero (nonce-alloc_entry a)
      ∙ ap (λ z. or_zero (if is_zero T z then none else some (str (hex_value T a.nonce)))) same
  nonce_read a (suc n) is same =
      ap or_zero (nonce-alloc_entry a)
      ∙ ap (λ z. or_zero (if is_zero T z then none else some (str (hex_value T a.nonce)))) same
      ∙ hex_value-IsNumber a.nonce (suc n) is

  get_alloc-build_genesis :
      (f : GenesisSource T) → get "alloc" (build_genesis T f) ≡ some (obj (alloc_of T f.pre empty))
  unfolding build_genesis get
  get_alloc-build_genesis f = grind (arith, get-put_some)

  -- In the genesis of a fixture the account of an address, read back from its hexadecimal texts, has
  -- the balance and the nonce of the last account that the fixture gives that address, a nonce that is
  -- left out counting as 0. Here the balance and the nonce of that account are numbers.
  pub fixture_genesis-accounts :
      (f : GenesisSource T) (addr : String) (a : Account T) (balance nonce : ℕ)
      → last_account addr f.pre ≡ some a
      → IsNumber a.balance balance
      → IsNumber a.nonce nonce
      → a.nonce_number ≡ pos nonce
      → (balance_at addr (build_genesis T f) ≡ some (pos balance))
        × (nonce_at addr (build_genesis T f) ≡ some (pos nonce))
  fixture_genesis-accounts f addr a balance nonce last rich used counted =
      let found : account_in addr (get "alloc" (build_genesis T f)) ≡ some (obj (alloc_entry T a)) =
        ap (account_in addr) (get_alloc-build_genesis f)
        ∙ alloc_of-last f.pre addr empty
        ∙ ap (λ o. or_entry o (get addr empty)) last in
      (
        ap balance_in found
            ∙ ap number_in (balance-alloc_entry a)
            ∙ hex_value-IsNumber a.balance balance rich,
        ap nonce_in found ∙ nonce_read a nonce used counted,
      )
