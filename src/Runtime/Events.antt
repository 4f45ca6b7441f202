-- ===== src/Runtime/Events.antt =====
-- What a list of events of packages/runtime/src/runtime.ts holds.
use arp.Common.{◌≡◌, refl, ap, String, List, [], ◌∷◌, ◌++◌}
use arp.Audit.{EntryInput}
use arp.Runtime.{Event, audited, handled, sent, DispatchInput}

-- the audit entries and the handler runs among events
unfoldable pub audits : List Event → List (String × EntryInput)
audits [] = []
audits (audited id e ∷ es) = (id, e) ∷ audits es
audits (handled h ∷ es) = audits es
audits (sent r ∷ es) = audits es

unfoldable pub handled_inputs : List Event → List DispatchInput
handled_inputs [] = []
handled_inputs (audited id e ∷ es) = handled_inputs es
handled_inputs (handled h ∷ es) = h ∷ handled_inputs es
handled_inputs (sent r ∷ es) = handled_inputs es

pub audits-append : (es fs : List Event) → audits (es ++ fs) ≡ audits es ++ audits fs
unfolding audits
audits-append [] fs = refl
audits-append (audited id e ∷ es) fs = ap (λ r. (id, e) ∷ r) (audits-append es fs)
audits-append (handled h ∷ es) fs = audits-append es fs
audits-append (sent r ∷ es) fs = audits-append es fs

pub handled_inputs-append :
    (es fs : List Event) → handled_inputs (es ++ fs) ≡ handled_inputs es ++ handled_inputs fs
unfolding handled_inputs
handled_inputs-append [] fs = refl
handled_inputs-append (audited id e ∷ es) fs = handled_inputs-append es fs
handled_inputs-append (handled h ∷ es) fs = ap (λ r. h ∷ r) (handled_inputs-append es fs)
handled_inputs-append (sent r ∷ es) fs = handled_inputs-append es fs
