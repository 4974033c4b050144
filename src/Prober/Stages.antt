-- ===== src/Prober/Stages.antt =====
-- The stages of a probe and the recorder that collects them:
-- balena/network-config/internal/proxyprobe/stages.go. The details and times of a stage are only
-- shown to an operator and are left out; a hint is kept as the case that it is for.
use nf_sdk.Base.{
  ℕ, Bool, true, false, not, ◌&&◌, ◌||◌, ◌==◌, leb, Option, none, some, is_none, List, [], ◌∷◌,
  ◌++◌, Text, codes, to_lower, text_contains, if◌then◌else◌,
}

pub data StageName : Type 0 where
  dns tcp handshake auth connect tls http : StageName

pub data Hint : Type 0 where
  use_address nothing_listening firewall no_route no_tcp wrong_protocol : Hint
  missing_credentials check_credentials blocked no_destination : Hint
  reencrypted expired untrusted no_tls nothing_usable : Hint

pub record Stage : Type 0 where
  pub name : StageName
  pub ok : Bool
  pub skipped : Bool
  pub error : Option Text
  pub hint : Option Hint

pub record Recorder : Type 0 where
  pub stages : List Stage
  pub failed : Option StageName

pub record Result : Type 0 where
  pub ok : Bool
  pub stages : List Stage
  pub failed : Option StageName

-- `stageOrder`
abbrev pub stage_order : List StageName
stage_order = dns ∷ tcp ∷ handshake ∷ auth ∷ connect ∷ tls ∷ http ∷ []

abbrev pub position : StageName → ℕ
position dns = 0
position tcp = 1
position handshake = 2
position auth = 3
position connect = 4
position tls = 5
position http = 6

abbrev pub same_stage : StageName → StageName → Bool
same_stage a b = position a == position b

tcp_hint : Text → Hint
tcp_hint msg =
    if text_contains msg (codes "refused")
    then nothing_listening
    else if text_contains msg (codes "timeout") || text_contains msg (codes "deadline")
    then firewall
    else if text_contains msg (codes "no route")
    then no_route
    else no_tcp

auth_hint : Text → Hint
auth_hint msg =
    if text_contains msg (codes "none are configured") || text_contains msg (codes "no credentials")
    then missing_credentials
    else check_credentials

connect_hint : Text → Hint
connect_hint msg =
    if text_contains msg (codes "not allowed")
      || text_contains msg (codes "forbidden")
      || text_contains msg (codes "403")
    then blocked
    else no_destination

tls_hint : Text → Hint
tls_hint msg =
    if text_contains msg (codes "intercepted")
    then reencrypted
    else if text_contains msg (codes "expired")
    then expired
    else if text_contains msg (codes "certificate") || text_contains msg (codes "x509")
    then untrusted
    else no_tls

-- `guidance`
unfoldable pub guidance : StageName → Text → Hint
unfolding tcp_hint auth_hint connect_hint tls_hint
guidance dns err = use_address
guidance tcp err = tcp_hint (to_lower err)
guidance handshake err = wrong_protocol
guidance auth err = auth_hint (to_lower err)
guidance connect err = connect_hint (to_lower err)
guidance tls err = tls_hint (to_lower err)
guidance http err = nothing_usable

-- `newRecorder`
abbrev pub new_recorder : Recorder
new_recorder = record { stages = []; failed = none }

abbrev pub skipped_stage : StageName → Stage
skipped_stage n = record { name = n; ok = false; skipped = true; error = none; hint = none }

abbrev pub passed_stage : StageName → Stage
passed_stage n = record { name = n; ok = true; skipped = false; error = none; hint = none }

abbrev pub failed_stage : StageName → Text → Stage
failed_stage n e = record {
  name = n;
  ok = false;
  skipped = false;
  error = some e;
  hint = some (guidance n e);
}

abbrev pub add_stage : Stage → Recorder → Recorder
add_stage s r = record r { stages = r.stages ++ s ∷ [] }

abbrev run_from : Option StageName → StageName → Option Text → Recorder → Recorder
run_from (some f) n e r = add_stage (skipped_stage n) r
run_from none n none r = add_stage (passed_stage n) r
run_from none n (some e) r = record { stages = r.stages ++ failed_stage n e ∷ []; failed = some n }

-- `recorder.run`, given the error of the step; the step is made only where nothing has failed.
abbrev pub run : StageName → Option Text → Recorder → Recorder
run n e r = run_from r.failed n e r

-- `recorder.pass` and `recorder.skip`
abbrev pub pass_stage : StageName → Recorder → Recorder
pass_stage n r = add_stage (passed_stage n) r

abbrev pub skip_stage : StageName → Recorder → Recorder
skip_stage n r = add_stage (skipped_stage n) r

unfoldable pub seen : StageName → List Stage → Bool
seen n [] = false
seen n (s ∷ ss) = same_stage s.name n || seen n ss

unfoldable pub fill : List StageName → List Stage → List Stage
unfolding seen
fill [] ss = []
fill (n ∷ ns) ss = let rest = fill ns ss in if seen n ss then rest else skipped_stage n ∷ rest

-- `sort.SliceStable` by position
unfoldable pub insert_stage : Stage → List Stage → List Stage
insert_stage s [] = s ∷ []
insert_stage s (t ∷ ts) =
    let later = t ∷ insert_stage s ts in
    if leb (position s.name) (position t.name) then s ∷ t ∷ ts else later

unfoldable pub sort_stages : List Stage → List Stage
unfolding insert_stage
sort_stages [] = []
sort_stages (s ∷ ss) = insert_stage s (sort_stages ss)

-- `recorder.pad`
unfoldable pub pad : List Stage → List Stage
unfolding fill sort_stages
pad ss = sort_stages (ss ++ fill stage_order ss)

-- `recorder.result`
unfoldable pub finish : Recorder → Result
unfolding pad
finish r = record { ok = is_none r.failed; stages = pad r.stages; failed = r.failed }

unfoldable pub is_connect_failure : Stage → Bool
is_connect_failure s = same_stage s.name connect && not s.ok

or_empty : Option Text → Text
or_empty none = []
or_empty (some e) = e

-- The first failure of the stage `connect` becomes one of the stage `auth`.
unfoldable pub retag : List Stage → Option StageName → Recorder
unfolding is_connect_failure or_empty
retag [] failed = record { stages = []; failed = failed }
retag (s ∷ ss) failed =
    let r = retag ss failed in
    let later = record r { stages = s ∷ r.stages } in
    let moved = record s { name = auth; hint = some (guidance auth (or_empty s.error)) } in
    if is_connect_failure s then record { stages = moved ∷ ss; failed = some auth } else later

-- `retagAuth` of probe.go
unfoldable pub retag_auth : Recorder → Recorder
unfolding retag
retag_auth r = retag r.stages r.failed

-- The stage that `Result.Summary` names.
unfoldable pub culprit : List Stage → Option StageName
culprit [] = none
culprit (s ∷ ss) = let rest = culprit ss in if not s.ok && not s.skipped then some s.name else rest
