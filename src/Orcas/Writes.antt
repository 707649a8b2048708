-- ===== src/Orcas/Writes.antt =====
-- The methods that write one key: what they share in the orchestrators, the handlers and the
-- responders.
use rend.Prelude.{Option}
use rend.Common.{Error, SetRequest, DeleteRequest, TouchRequest}
use rend.Protocol.{Reply}
use rend.Orcas.{Handler}

pub data Write : Type 0 where
  sets adds replaces appends prepends : SetRequest → Write
  deletes : DeleteRequest → Write
  touches : TouchRequest → Write

-- The handler's method of the same name.
abbrev pub call : (h : Handler) → Write → h.State → Option Error × h.State
call h (sets r) = h.set r
call h (adds r) = h.add r
call h (replaces r) = h.replace r
call h (appends r) = h.append r
call h (prepends r) = h.prepend r
call h (deletes r) = h.delete r
call h (touches r) = h.touch r

-- The responder's method of the same name.
abbrev pub answer : Write → Reply
answer (sets r) = Reply.set r.opaque r.quiet
answer (adds r) = Reply.add r.opaque r.quiet
answer (replaces r) = Reply.replace r.opaque r.quiet
answer (appends r) = Reply.append r.opaque r.quiet
answer (prepends r) = Reply.prepend r.opaque r.quiet
answer (deletes r) = Reply.delete r.opaque
answer (touches r) = Reply.touch r.opaque
