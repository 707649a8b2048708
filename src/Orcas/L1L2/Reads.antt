-- ===== src/Orcas/L1L2/Reads.antt =====
-- orcas/l1l2.go: Get, which fills L1 from the hits of L2, and GetE.
use rend.Prelude.{false, List, [], ◌∷◌, ◌++◌, Option, none, some, if◌then◌else◌, length}
use rend.Common.{Error, unknown_cmd, SetRequest, GetRequest, GetResponse, GetEResponse}
use rend.Protocol.{Reply}
use rend.Orcas.{
  Event, received, failed, Handler, Responder, Method, ◌>>=◌, ◌>>◌, return, count_by, count, on_l1,
  on_l2, reply,
}
use rend.Orcas.Metrics.{Metric}

-- The request for L2 that the first loop of `get` gathers from the misses of L1.
abbrev pub with_miss : GetRequest → GetResponse → GetRequest
with_miss req r = record req {
  keys = req.keys ++ r.key ∷ [];
  opaques = req.opaques ++ r.opaque ∷ [];
  quiet = req.quiet ++ r.quiet ∷ [];
}

-- The Set that puts an item of L2 into L1, and the response for the client.
abbrev pub refill : GetEResponse → SetRequest
refill r = record {
  key = r.key;
  value = r.value;
  flags = r.flags;
  exptime = r.exptime;
  opaque = 0;
  quiet = false;
}

abbrev pub get_response : GetEResponse → GetResponse
get_response r = record {
  key = r.key;
  value = r.value;
  opaque = r.opaque;
  flags = r.flags;
  miss = r.miss;
  quiet = r.quiet;
}

-- How the loop over L2's channels ends: it runs to its end with an error or none, or a failed
-- Set in L1 makes `get` return at once.
pub data Loop : Type 0 where
  finished : Option Error → Loop
  returned : Error → Loop

abbrev pub no_keys : GetRequest → GetRequest
no_keys req = record req { keys = []; opaques = []; quiet = [] }

module _ (l1 l2 : Handler) (res : Responder) where
  -- The loop over L1's channels, with the request and the error so far.
  unfoldable pub l1_loop :
      List (Event GetResponse)
      → GetRequest
      → Option Error
      → Method l1 l2 (GetRequest × Option Error)
  l1_loop [] req err = return (req, err)
  l1_loop (received r ∷ events) req err =
      if r.miss
      then (do count Metric.cmd_get_misses_l1; l1_loop events (with_miss req r) err)
      else do
        count Metric.cmd_get_hits
        count Metric.cmd_get_hits_l1
        reply res (Reply.get r)
        l1_loop events req err
  l1_loop (failed e ∷ events) req err = do
    count Metric.cmd_get_errors
    count Metric.cmd_get_errors_l1
    l1_loop events req (some e)

  -- One hit of L2: into L1, to the client, and on with `rest`.
  unfoldable pub l2_hit : GetEResponse → Method l1 l2 Loop → Method l1 l2 Loop
  l2_hit r rest = do
    count Metric.cmd_gete_hits_l2
    count Metric.cmd_get_set_l1
    set_err ← on_l1 (l1.set (refill r))
    elim set_err [
      | some e ↦ do count Metric.cmd_get_set_errors_l1; return (returned e)
      | none ↦ do
        count Metric.cmd_get_set_sucess_l1
        count Metric.cmd_get_hits
        reply res (Reply.get (get_response r))
        rest
    ]

  -- The loop over L2's channels. A hit overwrites the error so far with the nil of its Set.
  unfoldable pub l2_loop : List (Event GetEResponse) → Option Error → Method l1 l2 Loop
  unfolding l2_hit
  l2_loop [] err = return (finished err)
  l2_loop (received r ∷ events) err =
      if r.miss
      then (do
        count Metric.cmd_gete_misses_l2
        count Metric.cmd_get_misses
        reply res (Reply.get (get_response r))
        l2_loop events err)
      else l2_hit r (l2_loop events none)
  l2_loop (failed e ∷ events) err = do
    count Metric.cmd_get_errors
    count Metric.cmd_gete_errors_l2
    l2_loop events (some e)

  -- How `get` ends with an error or none, without and with a loop over L2's channels before.
  unfoldable pub get_end : GetRequest → Option Error → Method l1 l2 (Option Error)
  get_end req (some e) = return (some e)
  get_end req none = reply res (Reply.get_end req.noop_opaque req.noop_end)

  unfoldable pub loop_end : GetRequest → Loop → Method l1 l2 (Option Error)
  unfolding get_end
  loop_end req (returned e) = return (some e)
  loop_end req (finished err) = get_end req err

  -- The request for L2 that the misses of L1 make, with the error of L1.
  unfoldable pub query_l2 : GetRequest → Option Error → Method l1 l2 (Option Error)
  unfolding loop_end
  query_l2 req err = do
    count Metric.cmd_gete_l2
    count_by Metric.cmd_gete_keys_l2 (length req.keys)
    events ← on_l2 (l2.get_e req)
    out ← l2_loop events err
    loop_end req out

  -- `get` behind its first loop.
  unfoldable pub get_l2 : GetRequest → Option Error → Method l1 l2 (Option Error)
  unfolding get_end query_l2
  get_l2 req err = elim req.keys [ [] ↦ get_end req err | k ∷ keys ↦ query_l2 req err ]

  unfoldable pub get : GetRequest → Method l1 l2 (Option Error)
  get req = do
    count_by Metric.cmd_get_keys (length req.keys)
    count Metric.cmd_get_l1
    count_by Metric.cmd_get_keys_l1 (length req.keys)
    events ← on_l1 (l1.get req)
    (req', err) ← l1_loop events (no_keys req) none
    get_l2 req' err

  unfoldable pub get_e : GetRequest → Method l1 l2 (Option Error)
  get_e req = return (some unknown_cmd)
