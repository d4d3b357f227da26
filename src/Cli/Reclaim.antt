-- ===== src/Cli/Reclaim.antt =====
-- eest_replay/export.py and cli.py: the accounts that a submit has funded are those that a recovery
-- from its file asks for.
use buildoor_tester.Base.{
  ◌+◌, ◌^◌, ◌≡◌, sym, ap, ◌∙◌, true, Option, none, some, List, [], ◌∷◌, ◌++◌, String, pos, length,
  ok,
}
use buildoor_tester.Base.Json.{obj, Dict}
use buildoor_tester.Sweep.{Call, Chain, RecoveredAccount}
use buildoor_tester.Sweep.Recovery.{queried, sends, derived}
use buildoor_tester.Export.Submit.{
  Event, ask_balance, write_json, World, SubmitArgs, SubmitResult, recovery_path, start_of,
  recovery_meta,
}
use buildoor_tester.Export.Session.{submit_transactions}
use buildoor_tester.Export.Histories.{opened_for, runs}
use buildoor_tester.Export.Outcomes.{submit-recoverable}
use buildoor_tester.Cli.Recover.{
  RecoverArgs, Recovered, all_swept, sum_swept, recover_cmd, recover_cmd-recovery_meta,
}

append_cancel : {A : Type 0} (h xs ys : List A) → h ++ xs ≡ h ++ ys → xs ≡ ys
append_cancel [] xs ys e = e
append_cancel (x ∷ h) xs ys e = append_cancel h xs ys cc

same_file :
    (s path : String) (meta meta' : Dict) (xs ys : List Event)
    → ◌≡◌ {A = List Event}
        (ask_balance s ∷ write_json path meta ∷ xs)
        (ask_balance s ∷ write_json path meta' ∷ ys)
    → (meta ≡ meta') × (xs ≡ ys)
same_file s path meta meta' xs ys e = (cc e, cc e)

-- A submit that drew the start of its accounts ran with success and wrote `meta` into the recovery
-- file. A recovery from this file that ends without an exception then asks for the balances of the
-- accounts of the keys `start`, `start + 1` and so on, each once and in this order, as many as it was
-- asked for, where `start` is the number whose text the subprocess of the submit was given; and it
-- reports as many accounts as it has sent transactions. Here a place for the file is given to the
-- submit, and neither `--key` nor `--eoa-start` to the recovery.
pub submit-reclaimed :
    (W : World) (C : Chain) (a : SubmitArgs) (h : List Event) (b : RecoverArgs) (meta : Dict)
    {s path : String} {r : SubmitResult} {t more : List Event} {x : Recovered} {u : List Call}
    → W.address a.seed_key ≡ ok s
    → recovery_path W.recovery_suffix a.meta_path a.csv_path ≡ some path
    → a.eoa_start ≡ none
    → submit_transactions W a h ≡ (ok r, t)
    → r.execute_ok ≡ true
    → t ≡ h ++ ask_balance s ∷ write_json path meta ∷ more
    → b.key ≡ none
    → b.eoa_start ≡ none
    → b.meta ≡ some (ok (obj meta))
    → recover_cmd C b [] ≡ (ok x, u)
    → (url : String) × (rest : List Event) × (rs : List RecoveredAccount) × (more
        ≡ opened_for a.csv_path a.rpc_url ++ runs W a (start_of none a.randbits) url ∷ rest)
      × (queried u
          ≡ derived C (pos (a.randbits 240 + 2 ^ 16)) b.to_addr b.chain_id b.fees 0 b.count)
      × (x ≡ all_swept rs (sum_swept rs))
      × (length rs ≡ sends u)
submit-reclaimed W C a h b meta {s} {path} {more = more} known at drawn ran good wrote no_key
      no_start from recovered =
    let (url, rest, done) = submit-recoverable W a h known at ran good in
    let start = start_of none a.randbits in
    let drawn_start = λ (o : Option String). start_of o a.randbits in
    let file = λ (text : String). recovery_meta s text a.chain_id a.fork a.rpc_url in
    let opened = opened_for a.csv_path a.rpc_url in
    let behind = λ (text : String). opened ++ runs W a text url ∷ rest in
    let (same, left) =
      same_file s path meta (file (drawn_start a.eoa_start)) more (behind (drawn_start a.eoa_start))
        (append_cancel h _ _ (sym wrote ∙ done)) in
    let text : drawn_start a.eoa_start ≡ start = ap drawn_start drawn in
    let (rs, told, asked, sent) =
      recover_cmd-recovery_meta C b a.randbits s a.chain_id a.fork a.rpc_url no_key no_start
        (from ∙ ap (λ m. some (ok (obj m))) (same ∙ ap file text)) recovered in
    (url, rest, rs, left ∙ ap behind text, asked, told, sent)
