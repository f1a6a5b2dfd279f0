-- ===== src/Net/Tcp/Socket/Calls.antt =====
-- ts/net/tcp.ts, class `Socket`: which native calls it makes, and in which order.
use toki.Base.{
  append-nil, ℕ, ◌≡◌, refl, Bool, true, false, not, ◌&&◌, Option, none, some, List, [], ◌∷◌, ◌++◌,
  append_assoc, arith, if◌then◌else◌, Bool-cases, inl, inr,
}
use toki.Net.Cipher.{Bytes}
use toki.Net.Tcp.Socket.{
  Socket, Effect, send, finish, close, upgrade_started, upgrade_resolved, upgrade_rejected,
  Operation, Listeners, fire, writes, ends, destroys, upgrades, reads_peer, reads_alpn,
  reads_servername, Event, data_in, drained, peer_ended, secured, closed, used, on_backlog, write,
  write_last, end, destroy, upgrade_tls, operate, operate_all, maybe_auto_end, and_then, emit_data,
  emit_drain, emit_end, settle, emit_secure, emit_close, step, run,
}

-- From a write side that is closed or not: nothing is sent, finished or closed on a closed one, and
-- finishing and closing close it.
unfoldable pub orderly : Bool → List Effect → Bool
orderly over [] = true
orderly over (send bytes ∷ es) = not over && orderly over es
orderly over (finish ∷ es) = not over && orderly true es
orderly over (close ∷ es) = not over && orderly true es
orderly over (upgrade_started ∷ es) = orderly over es
orderly over (upgrade_resolved ∷ es) = orderly over es
orderly over (upgrade_rejected ∷ es) = orderly over es

orderly-weaken : (es : List Effect) → orderly true es ≡ true → orderly false es ≡ true
unfolding orderly
orderly-weaken [] h = refl
orderly-weaken (send bytes ∷ es) h = absurd (ground arith)
orderly-weaken (finish ∷ es) h = absurd (ground arith)
orderly-weaken (close ∷ es) h = absurd (ground arith)
orderly-weaken (upgrade_started ∷ es) h = orderly-weaken es h
orderly-weaken (upgrade_resolved ∷ es) h = orderly-weaken es h
orderly-weaken (upgrade_rejected ∷ es) h = orderly-weaken es h

-- What is orderly from the state that a step reaches is orderly after the step's own calls.
abbrev pub Leads : Socket → Socket × List Effect → Type 0
Leads s (s', out) =
    (more : List Effect) → orderly s'.ended more ≡ true → orderly s.ended (out ++ more) ≡ true

Leads-and_then :
    (s : Socket) (out : Socket × List Effect) (next : Socket → Socket × List Effect)
    → Leads s out
    → ((t : Socket) → Leads t (next t))
    → Leads s (and_then out next)
unfolding and_then
Leads-and_then s (s', out) next first later more h =
    rw (append_assoc out (next s').1 more) (first ((next s').1 ++ more) (later s' more h))

write-Leads : (bytes : Bytes) (backlog : ℕ) (s : Socket) → Leads s (write bytes backlog s)
unfolding write on_backlog orderly
write-Leads bytes backlog s more h = ground (arith, orderly-weaken more)

write_last-Leads : (last : Option (Bytes × ℕ)) (s : Socket) → Leads s (write_last last s)
unfolding write_last
write_last-Leads none s more h = h
write_last-Leads (some (bytes, backlog)) s more h = write-Leads bytes backlog s more h

-- `end` sends, then finishes, although the last `send` may have found the connection gone.
end-Leads : (last : Option (Bytes × ℕ)) (s : Socket) → Leads s (end last s)
unfolding end write_last write on_backlog orderly
end-Leads none s more h = ground (arith, orderly-weaken more)
end-Leads (some (bytes, backlog)) s more h = ground (arith, orderly-weaken more)

destroy-Leads : (s : Socket) → Leads s (destroy s)
unfolding destroy orderly
destroy-Leads s more h = ground arith

operate-Leads : (o : Operation) (s : Socket) → Leads s (operate o s)
unfolding operate upgrade_tls orderly
operate-Leads (writes bytes backlog) s more h = write-Leads bytes backlog s more h
operate-Leads (ends last) s more h = end-Leads last s more h
operate-Leads destroys s more h = destroy-Leads s more h
operate-Leads (upgrades started) s more h = ground arith
operate-Leads reads_peer s more h = h
operate-Leads reads_alpn s more h = h
operate-Leads reads_servername s more h = h

operate_all-Leads : (os : List Operation) (s : Socket) → Leads s (operate_all os s)
unfolding operate_all and_then
operate_all-Leads [] s more h = h
operate_all-Leads (o ∷ os) s more h =
    Leads-and_then s (operate o s) (operate_all os) (operate-Leads o s) (operate_all-Leads os) more
      h

if-Leads :
    (b : Bool) (s : Socket) (x y : Socket × List Effect)
    → Leads s x
    → Leads s y
    → Leads s (if b then x else y)
if-Leads true s x y hx hy = hx
if-Leads false s x y hx hy = hy

maybe_auto_end-Leads : (s : Socket) → Leads s (maybe_auto_end s)
unfolding maybe_auto_end
maybe_auto_end-Leads s =
    if-Leads (s.read_ended && (not s.allow_half_open && (not s.need_drain && not s.ended))) s
      (end none s) (s, []) (end-Leads none s) (λ more h. h)

settle-Leads :
    (outcome : Effect) (s : Socket)
    → ((more : List Effect) → orderly s.ended (outcome ∷ more) ≡ orderly s.ended more)
    → Leads s (settle outcome s)
unfolding settle
settle-Leads outcome s promise more h = elim (Bool-cases s.upgrading) [
  | inl pending ↦ ground (arith, promise more)
  | inr idle ↦ ground arith
]

fire-Leads :
    (listeners : Listeners) (next : Socket → Socket × List Effect) (s : Socket)
    → ((t : Socket) → Leads t (next t))
    → Leads s (fire listeners next s)
unfolding fire
fire-Leads listeners next s later =
    let done = operate_all listeners.does s in
    if-Leads listeners.throws s done (and_then done next) (operate_all-Leads listeners.does s)
      (Leads-and_then s done next (operate_all-Leads listeners.does s) later)

step-Leads : (e : Event) (s : Socket) → Leads s (step e s)
unfolding step emit_data emit_drain emit_end emit_secure emit_close orderly
step-Leads (data_in listeners) s = operate_all-Leads listeners.does s
step-Leads (drained listeners) s =
    fire-Leads listeners maybe_auto_end (record s { need_drain = false }) maybe_auto_end-Leads
step-Leads (peer_ended listeners) s =
    fire-Leads listeners maybe_auto_end (record s { read_ended = true }) maybe_auto_end-Leads
step-Leads (secured listeners) s =
    let s0 = record s { peer_cached = false; alpn_fetched = false; servername_fetched = false } in
    fire-Leads listeners (settle upgrade_resolved) s0
      (λ t. settle-Leads upgrade_resolved t (λ more. refl))
step-Leads (closed reason listeners) s =
    let s0 = record s { close_reason = reason } in
    Leads-and_then s (settle upgrade_rejected s0) (operate_all listeners.does)
      (settle-Leads upgrade_rejected s0 (λ more. refl)) (operate_all-Leads listeners.does)
step-Leads (used o) s = operate-Leads o s

run-Leads : (es : List Event) (s : Socket) → Leads s (run es s)
unfolding run
run-Leads [] s = λ more h. h
run-Leads (e ∷ es) s = Leads-and_then s (step e s) (run es) (step-Leads e s) (run-Leads es)

-- Whatever the events, what their listeners do, throwing included, and what the engine answers: a socket never sends
-- after it has finished or closed its write side, it finishes or closes it at most once, and one whose
-- write side has ended makes none of these calls.
pub run-orderly : (es : List Event) (s : Socket) → orderly s.ended (run es s).1 ≡ true
unfolding orderly
run-orderly es s = rw (← append-nil (run es s).1) (run-Leads es s [] refl)
