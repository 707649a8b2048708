-- ===== src/Orcas/L1L2/Writes.antt =====
-- orcas/l1l2.go: Set, Add, Replace, Append and Prepend: first in L2, then in L1.
use rend.Prelude.{◌||◌, Option, none, some, if◌then◌else◌}
use rend.Common.{Error, is_key_not_found, is_key_exists, is_item_not_stored, SetRequest}
use rend.Protocol.{Reply}
use rend.Orcas.{Handler, Responder, Method, ◌>>=◌, ◌>>◌, return, count, on_l1, on_l2, reply}
use rend.Orcas.Metrics.{Metric}

module _ (l1 l2 : Handler) (res : Responder) where
  -- `set` from the call of L1 on, L2 having succeeded.
  unfoldable pub set_l1 : SetRequest → Method l1 l2 (Option Error)
  set_l1 req = do
    count Metric.cmd_set_l1
    err ← on_l1 (l1.set req)
    elim err [
      | none ↦ do
        count Metric.cmd_set_success_l1
        count Metric.cmd_set_success
        reply res (Reply.set req.opaque req.quiet)
      | some e ↦ do count Metric.cmd_set_errors_l1; count Metric.cmd_set_errors; return (some e)
    ]

  unfoldable pub set : SetRequest → Method l1 l2 (Option Error)
  unfolding set_l1
  set req = do
    count Metric.cmd_set_l2
    err ← on_l2 (l2.set req)
    elim err [
      | none ↦ do count Metric.cmd_set_success_l2; set_l1 req
      | some e ↦ do count Metric.cmd_set_errors_l2; count Metric.cmd_set_errors; return (some e)
    ]

  -- `add` from the call of L1 on, L2 having succeeded.
  unfoldable pub add_l1 : SetRequest → Method l1 l2 (Option Error)
  add_l1 req = do
    count Metric.cmd_add_l1
    err ← on_l1 (l1.add req)
    elim err [
      | none ↦ do
        count Metric.cmd_add_stored_l1
        count Metric.cmd_add_stored
        reply res (Reply.add req.opaque req.quiet)
      | some e ↦
          if is_key_exists e
          then (do
            count Metric.cmd_add_not_stored_l1
            count Metric.cmd_add_not_stored
            return (some e))
          else do count Metric.cmd_add_errors_l1; count Metric.cmd_add_errors; return (some e)
    ]

  unfoldable pub add : SetRequest → Method l1 l2 (Option Error)
  unfolding add_l1
  add req = do
    count Metric.cmd_add_l2
    err ← on_l2 (l2.add req)
    elim err [
      | none ↦ do count Metric.cmd_add_stored_l2; add_l1 req
      | some e ↦
          if is_key_exists e
          then (do
            count Metric.cmd_add_not_stored_l2
            count Metric.cmd_add_not_stored
            return (some e))
          else do count Metric.cmd_add_errors_l2; count Metric.cmd_add_errors; return (some e)
    ]

  -- `replace` from the call of L1 on, L2 having succeeded.
  unfoldable pub replace_l1 : SetRequest → Method l1 l2 (Option Error)
  replace_l1 req = do
    count Metric.cmd_replace_l1
    err ← on_l1 (l1.replace req)
    elim err [
      | none ↦ do
        count Metric.cmd_replace_stored_l1
        count Metric.cmd_replace_stored
        reply res (Reply.replace req.opaque req.quiet)
      | some e ↦
          if is_key_not_found e
          then (do
            count Metric.cmd_replace_not_stored_l1
            count Metric.cmd_replace_not_stored
            reply res (Reply.replace req.opaque req.quiet))
          else do
            count Metric.cmd_replace_errors_l1
            count Metric.cmd_replace_errors
            return (some e)
    ]

  unfoldable pub replace : SetRequest → Method l1 l2 (Option Error)
  unfolding replace_l1
  replace req = do
    count Metric.cmd_replace_l2
    err ← on_l2 (l2.replace req)
    elim err [
      | none ↦ do count Metric.cmd_replace_stored_l2; replace_l1 req
      | some e ↦
          if is_key_not_found e
          then (do
            count Metric.cmd_replace_not_stored_l2
            count Metric.cmd_replace_not_stored
            return (some e))
          else do
            count Metric.cmd_replace_errors_l2
            count Metric.cmd_replace_errors
            return (some e)
    ]

  -- `append` from the call of L1 on, L2 having succeeded.
  unfoldable pub append_l1 : SetRequest → Method l1 l2 (Option Error)
  append_l1 req = do
    count Metric.cmd_append_l1
    err ← on_l1 (l1.append req)
    elim err [
      | none ↦ do
        count Metric.cmd_append_stored_l1
        count Metric.cmd_append_stored
        reply res (Reply.append req.opaque req.quiet)
      | some e ↦
          if is_item_not_stored e || is_key_not_found e
          then (do
            count Metric.cmd_append_not_stored_l1
            count Metric.cmd_append_stored
            reply res (Reply.append req.opaque req.quiet))
          else do count Metric.cmd_append_errors_l1; count Metric.cmd_append_errors; return (some e)
    ]

  unfoldable pub append : SetRequest → Method l1 l2 (Option Error)
  unfolding append_l1
  append req = do
    count Metric.cmd_append_l2
    err ← on_l2 (l2.append req)
    elim err [
      | none ↦ append_l1 req
      | some e ↦
          if is_item_not_stored e
          then (do
            count Metric.cmd_append_not_stored_l2
            count Metric.cmd_append_not_stored
            return (some e))
          else do count Metric.cmd_append_errors_l2; count Metric.cmd_append_errors; return (some e)
    ]

  -- `prepend` from the call of L1 on, L2 having succeeded.
  unfoldable pub prepend_l1 : SetRequest → Method l1 l2 (Option Error)
  prepend_l1 req = do
    count Metric.cmd_prepend_l1
    err ← on_l1 (l1.prepend req)
    elim err [
      | none ↦ do
        count Metric.cmd_prepend_stored_l1
        count Metric.cmd_prepend_stored
        reply res (Reply.prepend req.opaque req.quiet)
      | some e ↦
          if is_item_not_stored e || is_key_not_found e
          then (do
            count Metric.cmd_prepend_not_stored_l1
            count Metric.cmd_prepend_stored
            reply res (Reply.prepend req.opaque req.quiet))
          else do
            count Metric.cmd_prepend_errors_l1
            count Metric.cmd_prepend_errors
            return (some e)
    ]

  unfoldable pub prepend : SetRequest → Method l1 l2 (Option Error)
  unfolding prepend_l1
  prepend req = do
    count Metric.cmd_prepend_l2
    err ← on_l2 (l2.prepend req)
    elim err [
      | none ↦ prepend_l1 req
      | some e ↦
          if is_item_not_stored e
          then (do
            count Metric.cmd_prepend_not_stored_l2
            count Metric.cmd_prepend_not_stored
            return (some e))
          else do
            count Metric.cmd_prepend_errors_l2
            count Metric.cmd_prepend_errors
            return (some e)
    ]
