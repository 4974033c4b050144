-- ===== src/Prober/Rows.antt =====
-- Every probe reports the seven stages in order, and names the one that stopped it.
use nf_sdk.Base.{
  Bool, true, not, ◌&&◌, ◌||◌, ltb, Option, none, some, is_none, List, [], ◌∷◌, Text, ◌≡◌, refl,
  map, if◌then◌else◌, if_both,
}
use nf_sdk.Prober.Stages.{
  StageName, dns, tcp, handshake, auth, connect, tls, http, Stage, Recorder, Result, new_recorder,
  run, pass_stage, skip_stage, finish, pad, fill, seen, sort_stages, insert_stage, culprit,
  stage_order, position, same_stage,
}
use nf_sdk.Prober.Wire.{Conn}
use nf_sdk.Prober.Probe.{
  Network, Kind, https, tls_only, tcp_only, reachable, Opened, tunnel, finish_opened, finish_tunnel,
  tls_done, is_reach_check,
}

-- A stage failed exactly if the result names it, and every stage behind that one was skipped.
abbrev pub fits : Option StageName → Stage → Bool
fits none s = s.ok || s.skipped
fits (some f) s =
    if same_stage s.name f
    then not s.ok && not s.skipped
    else (s.ok || s.skipped) && (s.skipped || ltb (position s.name) (position f))

unfoldable pub every_fits : Option StageName → List Stage → Bool
every_fits f [] = true
every_fits f (s ∷ ss) = fits f s && every_fits f ss

abbrev pub IsReport : Result → Type 0
IsReport r =
    (map (λ (s : Stage). s.name) r.stages ≡ stage_order)
    × (r.ok ≡ is_none r.failed)
    × (every_fits r.failed r.stages ≡ true)
    × (culprit r.stages ≡ r.failed)

-- What is reported however the stages behind the tunnel end.
abbrev pub IsReady : Recorder → Type 0
IsReady r =
    (r.failed ≡ none)
    × IsReport (finish (skip_stage http (skip_stage tls r)))
    × ((e : Text) → IsReport (finish (run tls (some e) r)))
    × IsReport (finish (skip_stage http (run tls none r)))
    × ((e : Text) → IsReport (finish (run http (some e) (run tls none r))))
    × IsReport (finish (run http none (run tls none r)))

-- The ways in which a tunnel opens.
pub data Way : Type 0 where
  direct with_login without_login no_negotiation in_connect connect_only : Way

abbrev pub reached : Recorder
reached = run tcp none (run dns none new_recorder)

abbrev pub opened_by : Way → Recorder
opened_by direct = skip_stage connect (skip_stage auth (skip_stage handshake reached))
opened_by with_login = run connect none (run auth none (run handshake none reached))
opened_by without_login = run connect none (skip_stage auth (run handshake none reached))
opened_by no_negotiation = run connect none (skip_stage auth (skip_stage handshake reached))
opened_by in_connect = pass_stage auth (run connect none (skip_stage handshake reached))
opened_by connect_only = skip_stage auth (run connect none (skip_stage handshake reached))

opened_by-IsReady : (w : Way) → IsReady (opened_by w)
unfolding finish pad fill seen sort_stages insert_stage every_fits culprit
opened_by-IsReady direct = (
  refl,
  (refl, refl, refl, refl),
  λ e. (refl, refl, refl, refl),
  (refl, refl, refl, refl),
  λ e. (refl, refl, refl, refl),
  (refl, refl, refl, refl),
)
opened_by-IsReady with_login = (
  refl,
  (refl, refl, refl, refl),
  λ e. (refl, refl, refl, refl),
  (refl, refl, refl, refl),
  λ e. (refl, refl, refl, refl),
  (refl, refl, refl, refl),
)
opened_by-IsReady without_login = (
  refl,
  (refl, refl, refl, refl),
  λ e. (refl, refl, refl, refl),
  (refl, refl, refl, refl),
  λ e. (refl, refl, refl, refl),
  (refl, refl, refl, refl),
)
opened_by-IsReady no_negotiation = (
  refl,
  (refl, refl, refl, refl),
  λ e. (refl, refl, refl, refl),
  (refl, refl, refl, refl),
  λ e. (refl, refl, refl, refl),
  (refl, refl, refl, refl),
)
opened_by-IsReady in_connect = (
  refl,
  (refl, refl, refl, refl),
  λ e. (refl, refl, refl, refl),
  (refl, refl, refl, refl),
  λ e. (refl, refl, refl, refl),
  (refl, refl, refl, refl),
)
opened_by-IsReady connect_only = (
  refl,
  (refl, refl, refl, refl),
  λ e. (refl, refl, refl, refl),
  (refl, refl, refl, refl),
  λ e. (refl, refl, refl, refl),
  (refl, refl, refl, refl),
)

module _ (net : Network) where
  abbrev requested : Option Text → Recorder → Result
  requested e r = finish (run http e (run tls none r))

  requested-IsReport : (e : Option Text) (r : Recorder) → IsReady r → IsReport (requested e r)
  requested-IsReport none r h = h.5
  requested-IsReport (some e) r h = h.4 e

  tls_done-IsReport :
      (k : Kind) (e : Option Text) (r : Recorder) → IsReady r → IsReport (tls_done net k e r)
  unfolding tls_done
  tls_done-IsReport k (some e) r h = h.2 e
  tls_done-IsReport k none r h =
      if_both (λ x. IsReport (finish x)) (is_reach_check k) (skip_stage http (run tls none r))
        (run http net.http_error (run tls none r)) h.3 (requested-IsReport net.http_error r h)

  finish_tunnel-IsReport : (k : Kind) (r : Recorder) → IsReady r → IsReport (finish_tunnel net k r)
  unfolding finish_tunnel
  finish_tunnel-IsReport tcp_only r h = h.1
  finish_tunnel-IsReport https r h = tls_done-IsReport https (net.tls_error https) r h
  finish_tunnel-IsReport tls_only r h = tls_done-IsReport tls_only (net.tls_error tls_only) r h
  finish_tunnel-IsReport reachable r h = tls_done-IsReport reachable (net.tls_error reachable) r h

  -- What a probe of this kind reports from here.
  abbrev pub Reports : Kind → Opened → Type 0
  Reports k o = IsReport (finish_opened o.recorder.failed net k o)

  pub way-Reports : (w : Way) (k : Kind) (c : Conn) → Reports k (tunnel (opened_by w) c)
  unfolding finish_opened
  way-Reports direct k c = finish_tunnel-IsReport k (opened_by direct) (opened_by-IsReady direct)
  way-Reports with_login k c =
      finish_tunnel-IsReport k (opened_by with_login) (opened_by-IsReady with_login)
  way-Reports without_login k c =
      finish_tunnel-IsReport k (opened_by without_login) (opened_by-IsReady without_login)
  way-Reports no_negotiation k c =
      finish_tunnel-IsReport k (opened_by no_negotiation) (opened_by-IsReady no_negotiation)
  way-Reports in_connect k c =
      finish_tunnel-IsReport k (opened_by in_connect) (opened_by-IsReady in_connect)
  way-Reports connect_only k c =
      finish_tunnel-IsReport k (opened_by connect_only) (opened_by-IsReady connect_only)
