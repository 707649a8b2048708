-- ===== src/Orcas/Metrics.antt =====
-- orcas/types.go: the counters that the orchestrators increment, by their names.

pub data Metric : Type 0 where
  cmd_add_errors cmd_add_errors_l1 cmd_add_errors_l2 cmd_add_l1 cmd_add_l2 cmd_add_not_stored :
      Metric
  cmd_add_not_stored_l1 cmd_add_not_stored_l2 cmd_add_stored cmd_add_stored_l1 : Metric
  cmd_add_stored_l2 cmd_append_errors cmd_append_errors_l1 cmd_append_errors_l2 cmd_append_l1 :
      Metric
  cmd_append_l2 cmd_append_not_stored cmd_append_not_stored_l1 cmd_append_not_stored_l2 : Metric
  cmd_append_stored cmd_append_stored_l1 cmd_delete_errors cmd_delete_errors_l1 : Metric
  cmd_delete_errors_l2 cmd_delete_hits cmd_delete_hits_l1 cmd_delete_hits_l2 cmd_delete_l1 : Metric
  cmd_delete_l2 cmd_delete_misses cmd_delete_misses_l1 cmd_delete_misses_l2 : Metric
  cmd_gat_add_errors_l1 cmd_gat_add_l1 cmd_gat_add_not_stored_l1 cmd_gat_add_stored_l1 : Metric
  cmd_gat_errors cmd_gat_errors_l1 cmd_gat_errors_l2 cmd_gat_hits cmd_gat_hits_l1 cmd_gat_l1 :
      Metric
  cmd_gat_l2 cmd_gat_misses cmd_gat_misses_l1 cmd_gat_misses_l2 cmd_gat_touch_errors_l2 : Metric
  cmd_gat_touch_hits_l2 cmd_gat_touch_l2 cmd_gat_touch_misses_l2 cmd_get_errors : Metric
  cmd_get_errors_l1 cmd_get_hits cmd_get_hits_l1 cmd_get_keys cmd_get_keys_l1 cmd_get_l1 : Metric
  cmd_get_misses cmd_get_misses_l1 cmd_get_set_errors_l1 cmd_get_set_l1 cmd_get_set_sucess_l1 :
      Metric
  cmd_gete_errors cmd_gete_errors_l1 cmd_gete_errors_l2 cmd_gete_hits cmd_gete_hits_l1 : Metric
  cmd_gete_hits_l2 cmd_gete_keys cmd_gete_keys_l1 cmd_gete_keys_l2 cmd_gete_l1 cmd_gete_l2 : Metric
  cmd_gete_misses cmd_gete_misses_l1 cmd_gete_misses_l2 cmd_prepend_errors : Metric
  cmd_prepend_errors_l1 cmd_prepend_errors_l2 cmd_prepend_l1 cmd_prepend_l2 : Metric
  cmd_prepend_not_stored cmd_prepend_not_stored_l1 cmd_prepend_not_stored_l2 cmd_prepend_stored :
      Metric
  cmd_prepend_stored_l1 cmd_replace_errors cmd_replace_errors_l1 cmd_replace_errors_l2 : Metric
  cmd_replace_l1 cmd_replace_l2 cmd_replace_not_stored cmd_replace_not_stored_l1 : Metric
  cmd_replace_not_stored_l2 cmd_replace_stored cmd_replace_stored_l1 cmd_replace_stored_l2 : Metric
  cmd_set_errors cmd_set_errors_l1 cmd_set_errors_l2 cmd_set_l1 cmd_set_l2 cmd_set_success : Metric
  cmd_set_success_l1 cmd_set_success_l2 cmd_touch_errors cmd_touch_errors_l1 : Metric
  cmd_touch_errors_l2 cmd_touch_hits cmd_touch_hits_l1 cmd_touch_hits_l2 cmd_touch_l1 : Metric
  cmd_touch_l2 cmd_touch_misses cmd_touch_misses_l1 cmd_touch_misses_l2 inconsistency_detected :
      Metric
  cmd_set_replace_l1 cmd_set_replace_stored_l1 cmd_set_replace_not_stored_l1
        cmd_set_replace_errors_l1 cmd_add_replace_l1 cmd_add_replace_stored_l1
        cmd_add_replace_not_stored_l1 cmd_add_replace_errors_l1 cmd_replace_replace_l1
        cmd_replace_replace_stored_l1 cmd_replace_replace_not_stored_l1
        cmd_replace_replace_errors_l1 cmd_touch_touch_l1 cmd_touch_touch_hits_l1
        cmd_touch_touch_misses_l1 cmd_touch_touch_errors_l1 cmd_gat_touch_l1 cmd_gat_touch_hits_l1
        cmd_gat_touch_misses_l1 cmd_gat_touch_errors_l1 cmd_get_l2 cmd_get_keys_l2 cmd_get_hits_l2
        cmd_get_misses_l2 :
      Metric
  cmd_gat_hits_l2 : Metric
