-- ===== src/Orcas/L1Only.antt =====
-- orcas/l1only.go: the orchestrator over one handler. The second handler is given and not used.
pub mod Batches
pub mod Outcomes
use rend.Prelude.{false, List, [], ◌∷◌, Option, none, some, if◌then◌else◌, length}
use rend.Common.{
  Error, unknown_cmd, is_key_not_found, is_key_exists, SetRequest, GetRequest, DeleteRequest,
  TouchRequest, GatRequest, QuitRequest, NoopRequest, VersionRequest, Request, RequestType,
  get_opaque, is_quiet, GetResponse, GetEResponse,
}
use rend.Protocol.{Reply}
use rend.Orcas.{
  Event, received, failed, Handler, Responder, Method, ◌>>=◌, ◌>>◌, return, count_by, count, on_l1,
  reply,
}
use rend.Orcas.Metrics.{Metric}

module _ (l1 l2 : Handler) (res : Responder) where
  unfoldable pub set : SetRequest → Method l1 l2 (Option Error)
  set req = do
    count Metric.cmd_set_l1
    err ← on_l1 (l1.set req)
    elim err [
      | none ↦ do
        count Metric.cmd_set_success_l1
        count Metric.cmd_set_success
        reply res (Reply.set req.opaque req.quiet)
      | some e ↦ do count Metric.cmd_set_errors_l1; count Metric.cmd_set_errors; return (some e)
    ]

  unfoldable pub add : SetRequest → Method l1 l2 (Option Error)
  add req = do
    count Metric.cmd_add_l1
    err ← on_l1 (l1.add req)
    elim err [
      | none ↦ do
        count Metric.cmd_add_stored_l1
        count Metric.cmd_add_stored
        reply res (Reply.add req.opaque req.quiet)
      | some e ↦
          if is_key_exists e
          then (do
            count Metric.cmd_add_not_stored_l1
            count Metric.cmd_add_not_stored
            return (some e))
          else do count Metric.cmd_add_errors_l1; count Metric.cmd_add_errors; return (some e)
    ]

  unfoldable pub replace : SetRequest → Method l1 l2 (Option Error)
  replace req = do
    count Metric.cmd_replace_l1
    err ← on_l1 (l1.replace req)
    elim err [
      | none ↦ do
        count Metric.cmd_replace_stored_l1
        count Metric.cmd_replace_stored
        reply res (Reply.replace req.opaque req.quiet)
      | some e ↦
          if is_key_not_found e
          then (do
            count Metric.cmd_replace_not_stored_l1
            count Metric.cmd_replace_not_stored
            return (some e))
          else do
            count Metric.cmd_replace_errors_l1
            count Metric.cmd_replace_errors
            return (some e)
    ]

  unfoldable pub append : SetRequest → Method l1 l2 (Option Error)
  append req = do
    count Metric.cmd_append_l1
    err ← on_l1 (l1.append req)
    elim err [
      | none ↦ do
        count Metric.cmd_append_stored_l1
        count Metric.cmd_append_stored
        reply res (Reply.append req.opaque req.quiet)
      | some e ↦
          if is_key_not_found e
          then (do
            count Metric.cmd_append_not_stored_l1
            count Metric.cmd_append_not_stored
            return (some e))
          else do count Metric.cmd_append_errors_l1; count Metric.cmd_append_errors; return (some e)
    ]

  unfoldable pub prepend : SetRequest → Method l1 l2 (Option Error)
  prepend req = do
    count Metric.cmd_prepend_l1
    err ← on_l1 (l1.prepend req)
    elim err [
      | none ↦ do
        count Metric.cmd_prepend_stored_l1
        count Metric.cmd_prepend_stored
        reply res (Reply.prepend req.opaque req.quiet)
      | some e ↦
          if is_key_not_found e
          then (do
            count Metric.cmd_prepend_not_stored_l1
            count Metric.cmd_prepend_not_stored
            return (some e))
          else do
            count Metric.cmd_prepend_errors_l1
            count Metric.cmd_prepend_errors
            return (some e)
    ]

  -- The result of the responder is dropped, here and in `touch`.
  unfoldable pub delete : DeleteRequest → Method l1 l2 (Option Error)
  delete req = do
    count Metric.cmd_delete_l1
    err ← on_l1 (l1.delete req)
    elim err [
      | none ↦ do
        count Metric.cmd_delete_hits
        count Metric.cmd_delete_hits_l1
        reply res (Reply.delete req.opaque)
        return none
      | some e ↦
          if is_key_not_found e
          then (do
            count Metric.cmd_delete_misses_l1
            count Metric.cmd_delete_misses
            return (some e))
          else do count Metric.cmd_delete_errors_l1; count Metric.cmd_delete_errors; return (some e)
    ]

  unfoldable pub touch : TouchRequest → Method l1 l2 (Option Error)
  touch req = do
    count Metric.cmd_touch_l1
    err ← on_l1 (l1.touch req)
    elim err [
      | none ↦ do
        count Metric.cmd_touch_hits_l1
        count Metric.cmd_touch_hits
        reply res (Reply.touch req.opaque)
        return none
      | some e ↦
          if is_key_not_found e
          then (do count Metric.cmd_touch_misses_l1; count Metric.cmd_touch_misses; return (some e))
          else do count Metric.cmd_touch_misses_l1; count Metric.cmd_touch_misses; return (some e)
    ]

  -- The counters of one response, and the loop over the two channels of `l1.get`, with `err` so far.
  unfoldable pub get_count : GetResponse → Method l1 l2 (Unit {0})
  get_count r =
      if r.miss
      then (do count Metric.cmd_get_misses_l1; count Metric.cmd_get_misses)
      else do count Metric.cmd_get_hits; count Metric.cmd_get_hits_l1

  unfoldable pub get_loop : List (Event GetResponse) → Option Error → Method l1 l2 (Option Error)
  unfolding get_count
  get_loop [] err = return err
  get_loop (received r ∷ events) err = do get_count r; reply res (Reply.get r); get_loop events err
  get_loop (failed e ∷ events) err = do
    count Metric.cmd_get_errors
    count Metric.cmd_get_errors_l1
    get_loop events (some e)

  -- How Get and GetE end, with the error of their loop. The result of the responder is dropped.
  unfoldable pub get_end : GetRequest → Option Error → Method l1 l2 (Option Error)
  get_end req (some e) = return (some e)
  get_end req none = do reply res (Reply.get_end req.noop_opaque req.noop_end); return none

  unfoldable pub get : GetRequest → Method l1 l2 (Option Error)
  unfolding get_end
  get req = do
    count_by Metric.cmd_get_keys (length req.keys)
    count Metric.cmd_get_l1
    count_by Metric.cmd_get_keys_l1 (length req.keys)
    events ← on_l1 (l1.get req)
    err ← get_loop events none
    get_end req err

  -- The counters of one response, and the loop over the two channels of `l1.get_e`, with `err` so far.
  unfoldable pub get_e_count : GetEResponse → Method l1 l2 (Unit {0})
  get_e_count r =
      if r.miss
      then (do count Metric.cmd_gete_misses_l1; count Metric.cmd_gete_misses)
      else do count Metric.cmd_gete_hits; count Metric.cmd_gete_hits_l1

  unfoldable pub get_e_loop : List (Event GetEResponse) → Option Error → Method l1 l2 (Option Error)
  unfolding get_e_count
  get_e_loop [] err = return err
  get_e_loop (received r ∷ events) err = do
    get_e_count r
    reply res (Reply.get_e r)
    get_e_loop events err
  get_e_loop (failed e ∷ events) err = do
    count Metric.cmd_gete_errors
    count Metric.cmd_gete_errors_l1
    get_e_loop events (some e)

  unfoldable pub get_e : GetRequest → Method l1 l2 (Option Error)
  unfolding get_end
  get_e req = do
    count_by Metric.cmd_gete_keys (length req.keys)
    count Metric.cmd_gete_l1
    count_by Metric.cmd_gete_keys_l1 (length req.keys)
    events ← on_l1 (l1.get_e req)
    err ← get_e_loop events none
    get_end req err

  unfoldable pub gat_count : GetResponse → Method l1 l2 (Unit {0})
  gat_count r =
      if r.miss
      then (do count Metric.cmd_gat_misses_l1; count Metric.cmd_gat_misses)
      else do count Metric.cmd_gat_hits; count Metric.cmd_gat_hits_l1

  unfoldable pub gat : GatRequest → Method l1 l2 (Option Error)
  unfolding gat_count
  gat req = do
    count Metric.cmd_gat_l1
    (r, err) ← on_l1 (l1.gat req)
    elim err [
      | none ↦ do gat_count r; reply res (Reply.gat r); return none
      | some e ↦ do count Metric.cmd_gat_errors; count Metric.cmd_gat_errors_l1; return (some e)
    ]

  unfoldable pub noop : NoopRequest → Method l1 l2 (Option Error)
  noop req = reply res (Reply.noop req.opaque)

  unfoldable pub quit : QuitRequest → Method l1 l2 (Option Error)
  quit req = reply res (Reply.quit req.opaque req.quiet)

  unfoldable pub version : VersionRequest → Method l1 l2 (Option Error)
  version req = reply res (Reply.version req.opaque)

  unfoldable pub unknown : Method l1 l2 (Option Error)
  unknown = return (some unknown_cmd)

  -- `none` is Go's nil request.
  unfoldable pub error : Option Request → RequestType → Error → Method l1 l2 (Unit {0})
  error none t e = do reply res (Reply.error 0 t e false); return tt
  error (some req) t e = do reply res (Reply.error (get_opaque req) t e (is_quiet req)); return tt
