-- ===== src/RateLimit/Transport/Replay.antt =====
-- plugins/ratelimiter/src/tcp-rate-limit.ts: what a connection's listeners get while the store is asked.
use toki.Base.{
  ◌≡◌, refl, ap, ◌∙◌, List, [], ◌∷◌, ◌++◌, ℕ, append_assoc, append-nil, map, if◌then◌else◌,
}
use toki.RateLimit.Transport.{
  Options, Pending, Effect, handed_wrapper, emitted, buffering, passing, Verdict, judge, settle,
  emit_all, on_event, on_verdict, Event, arrives, verdict, step, run,
}

emit_all-append : (es fs : List Pending) → emit_all (es ++ fs) ≡ emit_all es ++ emit_all fs
unfolding emit_all
emit_all-append [] fs = refl
emit_all-append (e ∷ es) fs = ap (◌∷◌ (emitted e)) (emit_all-append es fs)

module _ (o : Options) where
  run-passing : (es : List Pending) → run o (map arrives es) passing ≡ (passing, emit_all es)
  unfolding run step on_event emit_all
  run-passing [] = refl
  run-passing (e ∷ es) = rw (run-passing es) refl

  run-buffering :
      (before : List Pending) (queue : List Pending) (rest : List Event)
      → run o (map arrives before ++ rest) (buffering queue)
        ≡ run o rest (buffering (queue ++ before))
  unfolding run step on_event
  run-buffering [] queue rest = rw (append-nil queue) refl
  run-buffering (e ∷ before) queue rest =
      run-buffering before (queue ++ (e ∷ [])) rest
      ∙ ap (λ q. run o rest (buffering q)) (append_assoc queue (e ∷ []) before)

-- While the store's promise is open a connection's events wait; whatever they are, and whenever the
-- verdict comes, the wrapper's listeners get every event exactly once and in the order of arrival,
-- after the handler has the wrapper when the connection is let in, and no handler otherwise.
pub run-verdict :
    (o : Options) (before after : List Pending) (now : ℕ) (v : Verdict)
    → run o (map arrives before ++ (verdict now v ∷ map arrives after)) (buffering []) ≡ (
      passing,
      (judge o now v).1
          ++ ((if (judge o now v).0 then handed_wrapper ∷ [] else [])
              ++ emit_all (before ++ after)),
    )
unfolding run step on_verdict settle
run-verdict o before after now v =
    let (allowed, out) = judge o now v in
    let handed : List Effect = if allowed then handed_wrapper ∷ [] else [] in
    run-buffering o before [] (verdict now v ∷ map arrives after)
    ∙ rw
        (
          run-passing o after,
          emit_all-append before after,
          append_assoc out (handed ++ emit_all before) (emit_all after),
          append_assoc handed (emit_all before) (emit_all after),
        )
        refl
