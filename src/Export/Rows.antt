-- ===== src/Export/Rows.antt =====
-- eest_replay/export.py: `_enrich`, `_row` and `_to_int`, the rows of the recorded transactions.
use Prim.Native.String.{slice, len}
use buildoor_tester.Base.{
  ℕ, zero, suc, ◌+◌, ◌/◌, ◌≡◌, refl, sym, ◌∙◌, ap, Bool, true, false, Option, none, some, List, [],
  ◌∷◌, String, ◌<>◌, starts_with, length, get_elem?, Outcome, ok, raised, type_error, ℤ, pos,
  negsuc, if◌then◌else◌, arith,
}
use buildoor_tester.Base.Numeral.{int_of}
use buildoor_tester.Base.Json.{Json, null, boolean, num, str, arr, obj, nil, Dict, empty, get}

-- A row of the file; `from` and `to` are any JSON value that the node gives.
pub record Row : Type 0 where
  pub seq : ℕ
  pub block_number : Option ℤ
  pub tx_index : Option ℤ
  pub tx_hash : String
  pub tx_type : Option ℤ
  pub sender : Json
  pub to : Json
  pub nonce : Option ℤ
  pub value : Option ℤ
  pub gas : Option ℤ
  pub gas_price : Option ℤ
  pub max_fee_per_gas : Option ℤ
  pub input_len : ℤ
  pub raw : String

-- `_to_int` of `info.get(key)`. A Boolean is an `int` of Python.
unfoldable pub to_int : Option Json → Option ℤ
to_int none = none
to_int (some null) = none
to_int (some (boolean true)) = some (pos 1)
to_int (some (boolean false)) = some (pos 0)
to_int (some (num n)) = some n
to_int (some (str s)) = int_of 16 s
to_int (some (arr xs)) = none
to_int (some (obj d)) = none

abbrev text_length : String → ℕ
text_length String.[] = 0
text_length (String.◌∷◌ c s) = suc (text_length s)

-- `(len(data) - 2) // 2 if isinstance(data, str) else 0`, where `//` rounds down.
unfoldable pub input_length : Option Json → ℤ
input_length none = pos 0
input_length (some (str String.[])) = negsuc 0
input_length (some (str (String.◌∷◌ c String.[]))) = negsuc 0
input_length (some (str (String.◌∷◌ c (String.◌∷◌ d s)))) = pos (text_length s / 2)
input_length (some _) = pos 0

abbrev or_json : Option Json → Json → Json
or_json none v = v
or_json (some x) v = x

-- The truth value of a JSON value.
abbrev json_truth : Json → Bool
json_truth null = false
json_truth (boolean b) = b
json_truth (num (pos zero)) = false
json_truth (num n) = true
json_truth (str String.[]) = false
json_truth (str (String.◌∷◌ c s)) = true
json_truth (arr nil) = false
json_truth (arr xs) = true
json_truth (obj empty) = false
json_truth (obj d) = true

abbrev or_blank : Option Json → Json
or_blank none = str ""
or_blank (some v) = if json_truth v then v else str ""

unfoldable pub with_0x : String → String
with_0x raw = if starts_with raw "0x" then raw else "0x" <> raw

-- `raw.removeprefix("0x")`.
unfoldable pub without_0x : String → String
without_0x raw = if starts_with raw "0x" then slice raw 2 (len raw) else raw

-- `_row`.
unfoldable pub row : ℕ → String → String → Dict → Row
row seq raw tx_hash info = record {
  seq = seq;
  block_number = to_int (get "blockNumber" info);
  tx_index = to_int (get "transactionIndex" info);
  tx_hash = tx_hash;
  tx_type = to_int (get "type" info);
  sender = or_json (get "from" info) (str "");
  to = or_blank (get "to" info);
  nonce = to_int (get "nonce" info);
  value = to_int (get "value" info);
  gas = to_int (get "gas" info);
  gas_price = to_int (get "gasPrice" info);
  max_fee_per_gas = to_int (get "maxFeePerGas" info);
  input_len = input_length (get "input" info);
  raw = with_0x raw;
}

-- `_get_tx`: every exception gives `None`.
unfoldable pub get_tx : Outcome Json → Option Json
get_tx (ok (obj d)) = get "result" d
get_tx (ok v) = none
get_tx (raised e) = none

-- `info or {}`, of which `_row` asks `.get`.
abbrev info_of : Option Json → Outcome Dict
info_of none = ok empty
info_of (some (obj d)) = ok d
info_of (some v) =
    if json_truth v then raised (type_error "the transaction is not an object") else ok empty

-- The digest of the bytes that a text writes in hexadecimal, which is raised for other texts, and
-- the answers of the node to `eth_getTransactionByHash`.
module _ (digest : String → Outcome String) (rpc : String → Outcome Json) where
  abbrev row_of : ℕ → String → String → Outcome Dict → Outcome Row
  row_of seq raw tx_hash (ok info) = ok (row seq raw tx_hash info)
  row_of seq raw tx_hash (raised e) = raised e

  -- One pass of the loop.
  unfoldable pub enrich_one : ℕ → String → Outcome String → Outcome Row
  unfolding with_0x row get_tx
  enrich_one seq raw (raised e) = raised e
  enrich_one seq raw (ok hex_digest) =
      row_of seq raw (with_0x hex_digest) (info_of (get_tx (rpc (with_0x hex_digest))))

  abbrev cons_row : Outcome Row → Outcome (List Row) → Outcome (List Row)
  cons_row (ok r) (ok rs) = ok (r ∷ rs)
  cons_row (ok r) (raised e) = raised e
  cons_row (raised e) rs = raised e

  -- `_enrich`, from the number `seq` on.
  unfoldable pub enrich : ℕ → List String → Outcome (List Row)
  unfolding enrich_one
  enrich seq [] = ok []
  enrich seq (raw ∷ raws) =
      cons_row (enrich_one seq raw (digest (without_0x raw))) (enrich (suc seq) raws)

  cons_row-eq-ok :
      (r : Outcome Row) (rs : Outcome (List Row)) {t : List Row}
      → cons_row r rs ≡ ok t
      → (x : Row) × (xs : List Row) × (r ≡ ok x) × (rs ≡ ok xs) × (t ≡ x ∷ xs)
  cons_row-eq-ok (ok r) (ok rs) e = (r, rs, refl, refl, cc e)
  cons_row-eq-ok (ok r) (raised x) e = cc e
  cons_row-eq-ok (raised x) rs e = cc e

  row_of-Holds :
      (seq : ℕ) (raw tx_hash : String) (o : Outcome Dict) {r : Row}
      → row_of seq raw tx_hash o ≡ ok r
      → (r.seq ≡ seq) × (r.raw ≡ with_0x raw)
  unfolding row
  row_of-Holds seq raw tx_hash (ok info) {r} e =
      let is : row seq raw tx_hash info ≡ r = cc e in
      (sym (ap (λ (x : Row). x.seq) is), sym (ap (λ (x : Row). x.raw) is))
  row_of-Holds seq raw tx_hash (raised x) e = cc e

  enrich_one-Holds :
      (seq : ℕ) (raw : String) (d : Outcome String) {r : Row}
      → enrich_one seq raw d ≡ ok r
      → (r.seq ≡ seq) × (r.raw ≡ with_0x raw)
  unfolding enrich_one
  enrich_one-Holds seq raw (ok d) e =
      row_of-Holds seq raw (with_0x d) (info_of (get_tx (rpc (with_0x d)))) e
  enrich_one-Holds seq raw (raised x) e = cc e

  pub enrich-length :
      (raws : List String) (seq : ℕ) {rows : List Row}
      → enrich seq raws ≡ ok rows
      → length rows ≡ length raws
  unfolding enrich
  enrich-length [] seq e = let is : [] ≡ _ = cc e in sym (ap length is)
  enrich-length (raw ∷ raws) seq e =
      let (x, xs, first, rest, is) =
        cons_row-eq-ok (enrich_one seq raw (digest (without_0x raw))) (enrich (suc seq) raws) e in
      ap length is ∙ ap suc (enrich-length raws (suc seq) rest)

  enrich-at :
      (raws : List String) (seq : ℕ) {rows : List Row} (j : ℕ) {raw : String}
      → enrich seq raws ≡ ok rows
      → get_elem? raws j ≡ some raw
      → (r : Row) × (get_elem? rows j ≡ some r) × (r.seq ≡ seq + j) × (r.raw ≡ with_0x raw)
  unfolding enrich
  enrich-at [] seq j e is = cc is
  enrich-at (raw ∷ raws) seq zero {raw = raw'} e at =
      let (x, xs, first, rest, is) =
        cons_row-eq-ok (enrich_one seq raw (digest (without_0x raw))) (enrich (suc seq) raws) e in
      let (numbered, kept) = enrich_one-Holds seq raw (digest (without_0x raw)) first in
      (
        x,
        ap (λ l. get_elem? l 0) is,
        omega (arith, numbered),
        let same : raw ≡ raw' = cc at in kept ∙ ap with_0x same,
      )
  enrich-at (raw ∷ raws) seq (suc j) e at =
      let (x, xs, first, rest, is) =
        cons_row-eq-ok (enrich_one seq raw (digest (without_0x raw))) (enrich (suc seq) raws) e in
      let (r, there, numbered, kept) = enrich-at raws (suc seq) j rest at in
      (r, ap (λ l. get_elem? l (suc j)) is ∙ there, omega (arith, numbered), kept)

  -- There is a row for each recorded transaction, in their order: the row in the place `j` has the
  -- next number from `seq` on and the text of the transaction in that place, with its `0x`.
  pub enrich-rows :
      (raws : List String) (seq : ℕ) {rows : List Row} (j : ℕ) {raw : String}
      → enrich seq raws ≡ ok rows
      → get_elem? raws j ≡ some raw
      → (length rows ≡ length raws)
        × (r : Row) × (get_elem? rows j ≡ some r)
        × (r.seq ≡ seq + j)
        × (r.raw ≡ with_0x raw)
  enrich-rows raws seq j e is =
      let (r, there, numbered, kept) = enrich-at raws seq j e is in
      (enrich-length raws seq e, r, there, numbered, kept)
