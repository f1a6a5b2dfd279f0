-- ===== src/Net/Tcp/Socket/Upgrade.antt =====
-- ts/net/tcp.ts, `upgradeTLS` of class `Socket`: its promise.
use toki.Base.{
  ℕ, ◌+◌, ◌≡◌, refl, true, false, none, some, List, [], ◌∷◌, ◌++◌, arith, if◌then◌else◌, Bool-cases,
  inl, inr,
}
use toki.Net.Tcp.Socket.{
  Socket, Effect, send, finish, close, upgrade_started, upgrade_resolved, upgrade_rejected,
  Operation, Listeners, fire, writes, ends, destroys, upgrades, reads_peer, reads_alpn,
  reads_servername, Event, data_in, drained, peer_ended, secured, closed, used, on_backlog, write,
  write_last, end, destroy, upgrade_tls, operate, operate_all, maybe_auto_end, and_then, emit_data,
  emit_drain, emit_end, settle, emit_secure, emit_close, step, run,
}

-- Upgrades that were started, and those whose promise was resolved or rejected.
unfoldable pub started : List Effect → ℕ
started [] = 0
started (upgrade_started ∷ es) = started es + 1
started (e ∷ es) = started es

unfoldable pub settled : List Effect → ℕ
settled [] = 0
settled (upgrade_resolved ∷ es) = settled es + 1
settled (upgrade_rejected ∷ es) = settled es + 1
settled (e ∷ es) = settled es

started-append : (es fs : List Effect) → started (es ++ fs) ≡ started es + started fs
unfolding started
started-append [] fs = omega arith
started-append (upgrade_started ∷ es) fs = omega (arith, started-append es fs)
started-append (send bytes ∷ es) fs = started-append es fs
started-append (finish ∷ es) fs = started-append es fs
started-append (close ∷ es) fs = started-append es fs
started-append (upgrade_resolved ∷ es) fs = started-append es fs
started-append (upgrade_rejected ∷ es) fs = started-append es fs

settled-append : (es fs : List Effect) → settled (es ++ fs) ≡ settled es + settled fs
unfolding settled
settled-append [] fs = omega arith
settled-append (upgrade_started ∷ es) fs = settled-append es fs
settled-append (send bytes ∷ es) fs = settled-append es fs
settled-append (finish ∷ es) fs = settled-append es fs
settled-append (close ∷ es) fs = settled-append es fs
settled-append (upgrade_resolved ∷ es) fs = omega (arith, settled-append es fs)
settled-append (upgrade_rejected ∷ es) fs = omega (arith, settled-append es fs)

-- One while an upgrade is pending.
abbrev pub pending : Socket → ℕ
pending s = if s.upgrading then 1 else 0

-- Upgrades started or pending before are settled or pending after.
abbrev pub Balanced : Socket → Socket × List Effect → Type 0
Balanced s (s', out) = started out + pending s ≡ settled out + pending s'

Balanced-and_then :
    (s : Socket) (out : Socket × List Effect) (next : Socket → Socket × List Effect)
    → Balanced s out
    → ((t : Socket) → Balanced t (next t))
    → Balanced s (and_then out next)
unfolding and_then
Balanced-and_then s (s', out) next first later =
    omega (arith, first, later s', started-append out (next s').1, settled-append out (next s').1)

operate-Balanced : (o : Operation) (s : Socket) → Balanced s (operate o s)
unfolding operate write on_backlog write_last end destroy upgrade_tls started settled
operate-Balanced (writes bytes backlog) s = ground arith
operate-Balanced (ends none) s = ground arith
operate-Balanced (ends (some (bytes, backlog))) s = ground arith
operate-Balanced destroys s = ground arith
operate-Balanced (upgrades begun) s = ground arith
operate-Balanced reads_peer s = refl
operate-Balanced reads_alpn s = refl
operate-Balanced reads_servername s = refl

operate_all-Balanced : (os : List Operation) (s : Socket) → Balanced s (operate_all os s)
unfolding operate_all and_then started settled
operate_all-Balanced [] s = refl
operate_all-Balanced (o ∷ os) s =
    Balanced-and_then s (operate o s) (operate_all os) (operate-Balanced o s)
      (operate_all-Balanced os)

maybe_auto_end-Balanced : (s : Socket) → Balanced s (maybe_auto_end s)
unfolding maybe_auto_end end write_last started settled
maybe_auto_end-Balanced s = ground arith

settle-Balanced :
    (outcome : Effect) (s : Socket)
    → settled (outcome ∷ []) ≡ 1
    → started (outcome ∷ []) ≡ 0
    → Balanced s (settle outcome s)
unfolding settle started settled
settle-Balanced outcome s one none_ = elim (Bool-cases s.upgrading) [
  | inl busy ↦ ground (arith, one, none_)
  | inr idle ↦ ground arith
]

fire-Balanced :
    (listeners : Listeners) (next : Socket → Socket × List Effect) (s : Socket)
    → ((t : Socket) → Balanced t (next t))
    → Balanced s (fire listeners next s)
unfolding fire
fire-Balanced listeners next s later = elim (Bool-cases listeners.throws) [
  | inl thrown ↦ rw thrown (operate_all-Balanced listeners.does s)
  | inr returns ↦ rw returns (
      Balanced-and_then s (operate_all listeners.does s) next
        (operate_all-Balanced listeners.does s) later)
]

step-Balanced : (e : Event) (s : Socket) → Balanced s (step e s)
unfolding step emit_data emit_drain emit_end emit_secure emit_close started settled
step-Balanced (data_in listeners) s = operate_all-Balanced listeners.does s
step-Balanced (drained listeners) s =
    fire-Balanced listeners maybe_auto_end (record s { need_drain = false }) maybe_auto_end-Balanced
step-Balanced (peer_ended listeners) s =
    fire-Balanced listeners maybe_auto_end (record s { read_ended = true }) maybe_auto_end-Balanced
step-Balanced (secured listeners) s =
    let s0 = record s { peer_cached = false; alpn_fetched = false; servername_fetched = false } in
    fire-Balanced listeners (settle upgrade_resolved) s0
      (λ t. settle-Balanced upgrade_resolved t refl refl)
step-Balanced (closed reason listeners) s =
    let s0 = record s { close_reason = reason } in
    Balanced-and_then s (settle upgrade_rejected s0) (operate_all listeners.does)
      (settle-Balanced upgrade_rejected s0 refl refl) (operate_all-Balanced listeners.does)
step-Balanced (used o) s = operate-Balanced o s

-- Over any events and listeners, the upgrades that start, with one that was pending, are as many as
-- the promises that are resolved or rejected, with one that is still pending.
pub run-Balanced : (es : List Event) (s : Socket) → Balanced s (run es s)
unfolding run and_then started settled
run-Balanced [] s = refl
run-Balanced (e ∷ es) s =
    Balanced-and_then s (step e s) (run es) (step-Balanced e s) (run-Balanced es)
