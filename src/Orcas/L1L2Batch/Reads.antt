-- ===== src/Orcas/L1L2Batch/Reads.antt =====
-- orcas/l1l2batch.go: Get, which leaves L1 as it is, and GetE. The loop over L1's channels is that of
-- orcas/l1l2.go.
use rend.Prelude.{List, [], ◌∷◌, Option, none, some, if◌then◌else◌, length}
use rend.Common.{Error, unknown_cmd, GetRequest, GetResponse}
use rend.Protocol.{Reply}
use rend.Orcas.{
  Event, received, failed, Handler, Responder, Method, ◌>>=◌, ◌>>◌, return, count_by, count, on_l1,
  on_l2, reply,
}
use rend.Orcas.Metrics.{Metric}
use rend.Orcas.L1L2.Reads.{l1_loop, no_keys}

module _ (l1 l2 : Handler) (res : Responder) where
  -- The loop over L2's channels, with the error so far, which it keeps.
  unfoldable pub l2_loop : List (Event GetResponse) → Option Error → Method l1 l2 (Option Error)
  l2_loop [] err = return err
  l2_loop (received r ∷ events) err =
      if r.miss
      then (do
        count Metric.cmd_get_misses_l2
        count Metric.cmd_get_misses
        reply res (Reply.get r)
        l2_loop events err)
      else do
        count Metric.cmd_get_hits_l2
        count Metric.cmd_get_hits
        reply res (Reply.get r)
        l2_loop events err
  l2_loop (failed e ∷ events) err = do
    count Metric.cmd_get_errors
    count Metric.cmd_gete_errors_l2
    l2_loop events (some e)

  -- How `get` ends with an error or none.
  unfoldable pub get_end : GetRequest → Option Error → Method l1 l2 (Option Error)
  get_end req (some e) = return (some e)
  get_end req none = reply res (Reply.get_end req.noop_opaque req.noop_end)

  -- The request for L2 that the misses of L1 make, with the error of L1.
  unfoldable pub query_l2 : GetRequest → Option Error → Method l1 l2 (Option Error)
  unfolding get_end
  query_l2 req err = do
    count Metric.cmd_get_l2
    count_by Metric.cmd_get_keys_l2 (length req.keys)
    events ← on_l2 (l2.get req)
    err' ← l2_loop events err
    get_end req err'

  -- `get` behind its first loop.
  unfoldable pub get_l2 : GetRequest → Option Error → Method l1 l2 (Option Error)
  unfolding get_end query_l2
  get_l2 req err = elim req.keys [ [] ↦ get_end req err | k ∷ keys ↦ query_l2 req err ]

  unfoldable pub get : GetRequest → Method l1 l2 (Option Error)
  get req = do
    count_by Metric.cmd_get_keys (length req.keys)
    count Metric.cmd_get_l1
    count_by Metric.cmd_get_keys_l1 (length req.keys)
    events ← on_l1 (l1.get req)
    (req', err) ← l1_loop l1 l2 res events (no_keys req) none
    get_l2 req' err

  unfoldable pub get_e : GetRequest → Method l1 l2 (Option Error)
  get_e req = return (some unknown_cmd)
