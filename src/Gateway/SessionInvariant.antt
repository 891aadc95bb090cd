-- ===== src/Gateway/SessionInvariant.antt =====
-- Proofs about the invariant of the gateway over all messages of a connection
-- (internal/gateway/gateway.go).
use routecat.Prelude.{List, [], arith, ℕ, ◌∷◌}
use routecat.Text.{codes}
use routecat.Float64.{Float64}
use routecat.Billing.{Engine}
use routecat.Gateway.State.{Exit, Gateway, NodeConn, panics, returns}
use routecat.Gateway.Usage.{Unmarshal}
use routecat.Gateway.Nodes.{Heartbeat, beat, disconnect, handle_heartbeat, put_conn}
use routecat.Gateway.Messages.{WsMsg, dispatch, heartbeat_of, read_loop, session}
use routecat.Gateway.Sessions.{dispatch_rule}
use routecat.Gateway.Sound.{Sound}
use routecat.Gateway.Handlers.{
  SameJobs, SameJobs-Sound, handle_proxy_chunk-Sound, handle_proxy_done-Sound, handle_reject-Sound,
}

module _ (fl : Float64) (unmarshal : Unmarshal) (engine : Engine fl.F) where
  beat-SameJobs :
      (hb : Heartbeat fl.F) (nc : NodeConn fl.F) (g : Gateway fl.F) → SameJobs g (beat hb nc g)
  unfolding beat
  beat-SameJobs hb nc g = ground arith

  handle_heartbeat-Sound :
      (nc : NodeConn fl.F) (hb : Heartbeat fl.F) (now : ℕ) (g : Gateway fl.F)
      → Sound g
      → Sound (handle_heartbeat engine.price hb nc now g).1.1
  unfolding handle_heartbeat
  handle_heartbeat-Sound nc hb now g s = SameJobs-Sound g (beat hb nc g) (beat-SameJobs hb nc g) s

  pub dispatch-Sound :
      (nc : NodeConn fl.F) (msg : WsMsg fl.F) (now : ℕ) (g : Gateway fl.F)
      → Sound g
      → Sound (dispatch fl unmarshal engine nc msg now g).1
  dispatch-Sound nc msg now g s =
      dispatch_rule fl unmarshal engine (λ out. Sound out.1) nc msg now g
        (handle_heartbeat-Sound nc (heartbeat_of msg) now g s) s
        (handle_reject-Sound g s nc msg.job_id)
        (handle_proxy_chunk-Sound g s nc msg.job_id (codes msg.data_text))
        (handle_proxy_done-Sound fl unmarshal engine nc msg.job_id now g s)

  read_loop-Sound :
      (nc : NodeConn fl.F) (msgs : List (WsMsg fl.F × ℕ)) (g : Gateway fl.F)
      → Sound g
      → Sound (read_loop fl unmarshal engine nc msgs g).1
  unfolding read_loop
  read_loop-Sound nc [] g s = s
  read_loop-Sound nc ((msg, now) ∷ msgs) g s =
      let out = dispatch fl unmarshal engine nc msg now g in
      let s' = dispatch-Sound nc msg now g s in
      ending out.0 (read_loop fl unmarshal engine nc msgs out.1) out.1 s'
        (read_loop-Sound nc msgs out.1 s')
    where
      ending :
          (exit : Exit) (rest : Exit × Gateway fl.F) (g' : Gateway fl.F)
          → Sound g'
          → Sound rest.1
          → let out : Exit × Gateway fl.F = elim exit [ panics ↦ (panics, g') | returns ↦ rest ] in
            Sound out.1
      ending returns rest g' h k = k
      ending panics rest g' h k = h

  pub disconnect-SameJobs : (nc : NodeConn fl.F) (g : Gateway fl.F) → SameJobs g (disconnect nc g)
  unfolding disconnect
  disconnect-SameJobs nc g = ground arith

  -- A connection from its entry to its end, with any messages at any times, keeps the invariant of the
  -- gateway: the counters of the users are their jobs in flight and at most three, and no channel is
  -- closed twice. A handler that panics leaves it as well.
  pub session-Sound :
      (nc : NodeConn fl.F) (msgs : List (WsMsg fl.F × ℕ)) (g : Gateway fl.F)
      → Sound g
      → Sound (session fl unmarshal engine nc msgs (put_conn nc g)).1
  unfolding session
  session-Sound nc msgs g s = ending _ _ (read_loop-Sound nc msgs (put_conn nc g) s)
    where
      ending :
          (exit : Exit) (g' : Gateway fl.F)
          → Sound g'
          → let out : Exit × Gateway fl.F = elim exit [
            | panics ↦ (panics, g')
            | returns ↦ (returns, disconnect nc g')
          ] in
            Sound out.1
      ending returns g' h = SameJobs-Sound g' (disconnect nc g') (disconnect-SameJobs nc g') h
      ending panics g' h = h
