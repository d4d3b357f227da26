-- ===== src/Process/Inside.antt =====
-- eest_replay/el.py and buildoor_client.py: what a context that returned has run between the start
-- and the stop of its process.
use buildoor_tester.Base.{
  ℕ, ◌≡◌, refl, sym, ap, ◌∙◌, Option, List, [], ◌∷◌, ◌++◌, append-nil, String, ◌<>◌, Outcome, ok,
  raised, Exec, call, ◌>>◌, >>=-eq-ok, ensuring-eq-ok,
}
use buildoor_tester.Base.Json.{Dict}
use buildoor_tester.Testing.{Testing}
use buildoor_tester.Process.Running.{Process, container}
use buildoor_tester.Process.Events.{Event, init_datadir, start, Host, started, request_stop, reap}
use buildoor_tester.Process.Engine.{
  ElHandles, local_url, name_or, wait_for_rpc, while_running, boot_geth, files_written, geth,
}
use buildoor_tester.Process.CommandLines.{init_command, geth_command}
use buildoor_tester.Process.Inner.{
  inner, inner-append, inner-outer, Outer, wait_for_rpc-Outer, cleanup-outer,
}

module _ (T : Testing) (H : Host T) where
  -- Over the history `h`, the body of a context has returned `r` with the history `v`, which the rest
  -- extends to `t`. Before the body and behind it there is only what contexts do themselves.
  abbrev pub Inside : {A : Type 0} → Exec (Event T) A → List (Event T) → A → List (Event T) → Type 0
  Inside body h r t =
      (u v post : List (Event T)) × (body u ≡ (ok r, v))
      × (t ≡ v ++ post)
      × (inner T u ≡ inner T h)
      × (inner T post ≡ [])

  pub started-Inside :
      {A : Type 0} (p : Process) (cmd : List String) (seconds : ℕ)
      (wait : Exec (Event T) (Unit {0})) (body : Exec (Event T) A) (s : Outcome (Unit {0}))
      (h : List (Event T)) {r : A} {t : List (Event T)}
      → Outer T H wait
      → (started T H (start p cmd) s >> while_running T H p seconds wait body) h ≡ (ok r, t)
      → Inside body h r t
  unfolding while_running
  started-Inside p cmd seconds wait body (raised x) h outer e = cc e
  started-Inside p cmd seconds wait body (ok _) h {r} {t} outer e =
      let h1 = h ++ start p cmd ∷ [] in
      let (_, good, closed) =
        ensuring-eq-ok (wait >> body) (request_stop T H p >> reap T H p seconds) h1 e in
      let whole : (wait >> body) h1 ≡ (ok r, ((wait >> body) h1).1) =
        λ i. (good i, ((wait >> body) h1).1) in
      let (_, u, waited, done) = >>=-eq-ok wait (λ _. body) h1 whole in
      let (zs, quiet, at) = cleanup-outer T H p seconds ((wait >> body) h1).1 in
      (
        u,
        ((wait >> body) h1).1,
        zs,
        done,
        sym (ap (λ q. q.1) closed) ∙ at,
        ap (λ q. inner T q.1) (sym waited)
            ∙ outer h1
            ∙ inner-outer T h (start p cmd ∷ []) (unfold inner in refl),
        quiet,
      )

  boot_geth-Inside :
      {A : Type 0} (work_dir image name : String) (rpc_port auth_port : ℕ)
      (body : ElHandles → Exec (Event T) A) (h : List (Event T)) {r : A} {t : List (Event T)}
      → boot_geth T H work_dir image name rpc_port auth_port body h ≡ (ok r, t)
      → (handles : ElHandles) × Inside (body handles) h r t
  boot_geth-Inside work_dir image name rpc_port auth_port body h e =
      let init = init_datadir (init_command work_dir image) in
      let (_, u, made, rest) = >>=-eq-ok (call H.on_init init) _ h e in
      let (u', v, post, done, at, before, behind) =
        started-Inside (container name) (geth_command work_dir image name rpc_port auth_port) 10
          (wait_for_rpc T H (local_url rpc_port)) (body _) (H.on_start u) u
          (wait_for_rpc-Outer T H (local_url rpc_port)) rest in
      let first : inner T u ≡ inner T h =
        ap (λ q. inner T q.1) (sym made) ∙ inner-outer T h (init ∷ []) (unfold inner in refl) in
      (_, (u', v, post, done, at, before ∙ first, behind))

  files-outer :
      (h : List (Event T)) (work_dir : String) (genesis : Dict)
      → inner T (files_written T H h work_dir genesis) ≡ inner T h
  unfolding inner
  files-outer h work_dir genesis = simp (inner-append, append-nil)

  pub geth-Inside :
      {A : Type 0} (genesis : Dict) (work_dir image : String) (name : Option String)
      (body : ElHandles → Exec (Event T) A) (h : List (Event T)) {r : A} {t : List (Event T)}
      → geth T H genesis work_dir image name body h ≡ (ok r, t)
      → (handles : ElHandles) × Inside (body handles) h r t
  unfolding geth
  geth-Inside genesis work_dir image name body h e =
      let h2 = files_written T H h work_dir genesis in
      let (handles, (u, v, post, done, at, before, behind)) =
        boot_geth-Inside work_dir image (name_or ("eest-replay-" <> H.token_hex h2) name)
          (H.free_port h2 0) (H.free_port h2 1) body h2 e in
      (handles, (u, v, post, done, at, before ∙ files-outer h work_dir genesis, behind))
