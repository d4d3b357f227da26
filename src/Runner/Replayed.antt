-- ===== src/Runner/Replayed.antt =====
-- eest_replay/runner.py: what a replay that returned has run between the start and the stop of its
-- processes.
use buildoor_tester.Base.{
  ℕ, ◌-◌, ◌≡◌, refl, sym, ap, ◌∙◌, ◌↔◌, true, false, Option, none, some, List, [], ◌++◌,
  append_assoc, map, String, ok, >>=-eq-ok, continue-eq-ok,
}
use buildoor_tester.Testing.{Testing, Fixture}
use buildoor_tester.Genesis.Chainspec.{GenesisSource, build_genesis}
use buildoor_tester.Runner.Results.{FixtureResult, get_payload_version, passed}
use buildoor_tester.Runner.Calls.{Call}
use buildoor_tester.Runner.Drive.{Settings, drive_chain}
use buildoor_tester.Runner.Order.{valid_payloads}
use buildoor_tester.Runner.Built.{Agreed, drive_chain-passed}
use buildoor_tester.Runner.Replay.{driven, finish, settings_for, driven_at, with_builder, replay}
use buildoor_tester.Process.Events.{Event, calls, Host}
use buildoor_tester.Process.Running.{builder}
use buildoor_tester.Process.Engine.{ElHandles, wait_for_health, buildoor_simbuild}
use buildoor_tester.Process.CommandLines.{default_image}
use buildoor_tester.Process.Inner.{
  inner, inner-append, inner-calls, inner-outer, wait_for_health-Outer,
}
use buildoor_tester.Process.Inside.{Inside, started-Inside, geth-Inside}

module _ (T : Testing) (H : Host T) where
  -- The chain was driven within the replay, and gave the result `r` but for the fork and the time. The
  -- replay made no other calls: those of `asked` are all that was added to the calls in `h`.
  pub record Drove (f : Fixture T) (version : ℕ) (r : FixtureResult) (h t : List (Event T))
      : Type 0 where
    pub rpc_url : String
    pub auth_url : String
    pub settings : Settings
    pub versioned : settings.payload_version ≡ version
    pub before : List (Event T)
    pub asked : List (Call T)
    pub after : List (Event T)
    pub result : FixtureResult
    pub drove : drive_chain T (H.node before rpc_url auth_url) settings f [] ≡ (ok result, asked)
    pub listed : t ≡ (before ++ map calls asked) ++ after
    pub once : inner T t ≡ inner T h ++ map calls asked
    pub elapsed : ℕ
    pub finished : r ≡ record result { fork = some f.fork; elapsed_ms = elapsed }

  driven_at-Drove :
      (test_id : String) (version build_time_ms began : ℕ) (f : Fixture T) (handles : ElHandles)
      (base : Option String) (h : List (Event T)) {r : FixtureResult} {t : List (Event T)}
      → Inside T H (driven_at T H test_id version build_time_ms began f handles base) h r t
      → Drove f version r h t
  unfolding driven finish
  driven_at-Drove test_id version build_time_ms began f handles base h {r = r}
        (u, v, post, e, at, outer, quiet) =
      let s = settings_for T H test_id version build_time_ms base in
      let (q, w, first, last) = >>=-eq-ok (driven T H handles s f) (finish T H f.fork began) u e in
      let N = H.node u handles.rpc_url handles.auth_url in
      let good : (drive_chain T N s f []).0 ≡ ok q = ap (λ x. x.0) first in
      let asked = (drive_chain T N s f []).1 in
      let listed =
        at ∙ ap (λ l. l ++ post) (sym (ap (λ x. x.1) last) ∙ sym (ap (λ x. x.1) first)) in
      let finished : ok (record q { fork = some f.fork; elapsed_ms = H.now w - began }) ≡ ok r =
        ap (λ x. x.0) last in
      record {
        rpc_url = handles.rpc_url;
        auth_url = handles.auth_url;
        settings = s;
        versioned = refl;
        before = u;
        asked = asked;
        after = post;
        result = q;
        drove = λ i. (good i, (drive_chain T N s f []).1);
        listed = listed;
        once =
            ap (inner T) listed
            ∙ inner-outer T (u ++ map calls asked) post quiet
            ∙ inner-append T u (map calls asked)
            ∙ ap (λ l. inner T u ++ l) (inner-calls T asked)
            ∙ ap (λ l. l ++ map calls asked) outer;
        elapsed = H.now w - began;
        finished = sym (cc finished);
      }

  with_builder-Drove :
      (test_id : String) (version build_time_ms began : ℕ) (f : Fixture T) (binary : Option String)
      (handles : ElHandles) (h : List (Event T)) {r : FixtureResult} {t : List (Event T)}
      → Inside T H (with_builder T H test_id version build_time_ms began f binary handles) h r t
      → Drove f version r h t
  unfolding with_builder buildoor_simbuild
  with_builder-Drove test_id version build_time_ms began f none handles h inside =
      driven_at-Drove test_id version build_time_ms began f handles none h inside
  with_builder-Drove test_id version build_time_ms began f (some binary) handles h {t = t}
        (u, v, post, e, at, outer, quiet) =
      let (u', v', post', e', at', outer', quiet') =
        started-Inside T H builder _ 5 (wait_for_health T H _) _ (H.on_start u) u
          (wait_for_health-Outer T H _) e in
      driven_at-Drove test_id version build_time_ms began f handles _ h (
        u',
        v',
        post' ++ post,
        e',
        at ∙ ap (λ l. l ++ post) at' ∙ append_assoc v' post' post,
        outer' ∙ outer,
        inner-outer T post' post quiet ∙ quiet',
      )

  -- A replay that returned has driven the chain once, by the version of the fixture's fork, and its
  -- calls stand together in what was done.
  replay-Drove :
      (source : GenesisSource T) (f : Fixture T) (test_id work_dir : String) (build_time_ms : ℕ)
      (binary : Option String) (h : List (Event T)) {r : FixtureResult} {t : List (Event T)}
      → replay T H source f test_id work_dir build_time_ms binary h ≡ (ok r, t)
      → (version : ℕ) × (get_payload_version T f ≡ ok version) × Drove f version r h t
  unfolding replay
  replay-Drove source f test_id work_dir build_time_ms binary h e =
      let (version, is, rest) = continue-eq-ok (get_payload_version T f) _ h e in
      let (handles, inside) =
        geth-Inside T H (build_genesis T (record source { fork = f.fork })) work_dir default_image
          none (with_builder T H test_id version build_time_ms (H.now h) f binary) h rest in
      (
        version,
        is,
        with_builder-Drove test_id version build_time_ms (H.now h) f binary handles h inside,
      )

  -- A replay that passed: with the version of the fixture's fork it has driven the chain once, by
  -- calls that stand together in what was done and are the only ones that it added to the calls of
  -- before; and in these, for each valid payload, the engine or
  -- buildoor answered with a payload that agrees with the expected one in every field that the
  -- builder does not choose, given that `!=` is false exactly on equal values. The result names
  -- the fixture's fork.
  pub replay-passed :
      ((a b : T.Value) → (T.ne a b ≡ false) ↔ (a ≡ b))
      → (source : GenesisSource T) (f : Fixture T) (test_id work_dir : String) (build_time_ms : ℕ)
        (binary : Option String) (h : List (Event T)) {r : FixtureResult} {t : List (Event T)}
      → replay T H source f test_id work_dir build_time_ms binary h ≡ (ok r, t)
      → passed r ≡ true
      → (d : (version : ℕ) × (get_payload_version T f ≡ ok version) × Drove f version r h t)
        × Agreed T
            (H.node d.2.before d.2.rpc_url d.2.auth_url)
            d.2.settings
            d.2.asked
            (valid_payloads T f.payloads)
        × (r.fork ≡ some f.fork)
  unfolding passed
  replay-passed law source f test_id work_dir build_time_ms binary h e p =
      let (version, is, d) = replay-Drove source f test_id work_dir build_time_ms binary h e in
      let p' : passed d.result ≡ true = sym (ap passed d.finished) ∙ p in
      (
        (version, is, d),
        drive_chain-passed T (H.node d.before d.rpc_url d.auth_url) d.settings law f [] d.drove p',
        ap (λ (x : FixtureResult). x.fork) d.finished,
      )
