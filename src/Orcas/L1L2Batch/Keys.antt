-- ===== src/Orcas/L1L2Batch/Keys.antt =====
-- orcas/l1l2batch.go: Delete, Touch and GAT, and the methods that call no handler.
use rend.Prelude.{false, Option, none, some, if◌then◌else◌}
use rend.Common.{
  Error, unknown_cmd, is_key_not_found, DeleteRequest, TouchRequest, GatRequest, QuitRequest,
  NoopRequest, VersionRequest, Request, RequestType, get_opaque, is_quiet, GetResponse,
}
use rend.Protocol.{Reply}
use rend.Orcas.{Handler, Responder, Method, ◌>>=◌, ◌>>◌, return, count, on_l1, on_l2, reply}
use rend.Orcas.Metrics.{Metric}

-- The Touch of L1 after a hit in L2, which leaves the expiration time out.
abbrev pub touch_request : GatRequest → TouchRequest
touch_request req = record { key = req.key; exptime = 0; opaque = req.opaque; quiet = false }

module _ (l1 l2 : Handler) (res : Responder) where
  -- `delete` from the call of L1 on, L2 having succeeded.
  unfoldable pub delete_l1 : DeleteRequest → Method l1 l2 (Option Error)
  delete_l1 req = do
    count Metric.cmd_delete_l1
    err ← on_l1 (l1.delete req)
    elim err [
      | none ↦ do
        count Metric.cmd_delete_hits_l1
        count Metric.cmd_delete_hits
        reply res (Reply.delete req.opaque)
      | some e ↦
          if is_key_not_found e
          then (do
            count Metric.cmd_delete_misses_l1
            count Metric.cmd_delete_hits
            reply res (Reply.delete req.opaque))
          else do count Metric.cmd_delete_errors_l1; count Metric.cmd_delete_errors; return (some e)
    ]

  unfoldable pub delete : DeleteRequest → Method l1 l2 (Option Error)
  unfolding delete_l1
  delete req = do
    count Metric.cmd_delete_l2
    err ← on_l2 (l2.delete req)
    elim err [
      | none ↦ do count Metric.cmd_delete_hits_l2; delete_l1 req
      | some e ↦
          if is_key_not_found e
          then (do
            count Metric.cmd_delete_misses_l2
            count Metric.cmd_delete_misses
            return (some e))
          else do count Metric.cmd_delete_errors_l2; count Metric.cmd_delete_errors; return (some e)
    ]

  -- `touch` from the call of L1 on, L2 having succeeded.
  unfoldable pub touch_l1 : TouchRequest → Method l1 l2 (Option Error)
  touch_l1 req = do
    count Metric.cmd_touch_touch_l1
    err ← on_l1 (l1.touch req)
    elim err [
      | none ↦ do
        count Metric.cmd_touch_touch_hits_l1
        count Metric.cmd_touch_hits
        reply res (Reply.touch req.opaque)
      | some e ↦
          if is_key_not_found e
          then (do
            count Metric.cmd_touch_touch_misses_l1
            count Metric.cmd_touch_hits
            reply res (Reply.touch req.opaque))
          else do
            count Metric.cmd_touch_touch_errors_l1
            count Metric.cmd_touch_errors
            return (some e)
    ]

  unfoldable pub touch : TouchRequest → Method l1 l2 (Option Error)
  unfolding touch_l1
  touch req = do
    count Metric.cmd_touch_l2
    err ← on_l2 (l2.touch req)
    elim err [
      | none ↦ do count Metric.cmd_touch_hits_l2; touch_l1 req
      | some e ↦
          if is_key_not_found e
          then (do count Metric.cmd_touch_misses_l2; count Metric.cmd_touch_misses; return (some e))
          else do count Metric.cmd_touch_errors_l2; count Metric.cmd_touch_errors; return (some e)
    ]

  -- `gat` after a hit in L2, whose response is `r`.
  unfoldable pub gat_touch : GatRequest → GetResponse → Method l1 l2 (Option Error)
  gat_touch req r = do
    count Metric.cmd_gat_hits_l2
    count Metric.cmd_gat_touch_l1
    err ← on_l1 (l1.touch (touch_request req))
    elim err [
      | none ↦ do
        count Metric.cmd_gat_touch_hits_l1
        count Metric.cmd_gat_hits
        reply res (Reply.gat r)
      | some e ↦
          if is_key_not_found e
          then (do
            count Metric.cmd_gat_touch_misses_l1
            count Metric.cmd_gat_hits
            reply res (Reply.gat r))
          else do count Metric.cmd_gat_touch_errors_l1; count Metric.cmd_gat_errors; return (some e)
    ]

  unfoldable pub gat : GatRequest → Method l1 l2 (Option Error)
  unfolding gat_touch
  gat req = do
    count Metric.cmd_gat_l2
    got ← on_l2 (l2.gat req)
    elim got.1 [
      | some e ↦ do count Metric.cmd_gat_errors_l2; count Metric.cmd_gat_errors; return (some e)
      | none ↦
          if got.0.miss
          then (do
            count Metric.cmd_gat_misses_l2
            count Metric.cmd_gat_misses
            reply res (Reply.gat got.0))
          else gat_touch req got.0
    ]

  unfoldable pub noop : NoopRequest → Method l1 l2 (Option Error)
  noop req = reply res (Reply.noop req.opaque)

  unfoldable pub quit : QuitRequest → Method l1 l2 (Option Error)
  quit req = reply res (Reply.quit req.opaque req.quiet)

  unfoldable pub version : VersionRequest → Method l1 l2 (Option Error)
  version req = reply res (Reply.version req.opaque)

  unfoldable pub unknown : Method l1 l2 (Option Error)
  unknown = return (some unknown_cmd)

  unfoldable pub error : Option Request → RequestType → Error → Method l1 l2 (Unit {0})
  error none t e = do reply res (Reply.error 0 t e false); return tt
  error (some req) t e = do reply res (Reply.error (get_opaque req) t e (is_quiet req)); return tt
