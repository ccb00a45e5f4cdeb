-- ===== src/Storage/Calls.antt =====
-- The Storage interface of pkg/dc2/storage/storage.go as a client sees it: sequences of calls on a
-- memoryStorage, and the contract that they meet.
use dc.Prelude.{String, ◌≡◌, refl, ap, ◌∙◌, List, [], ◌∷◌}
use dc.Api.{Result}
use dc.Storage.{
  Resource, Attribute, Storage, register_resource, remove_resource, set_resource_attributes,
  remove_resource_attributes,
}
use dc.Storage.Invariant.{
  IsValid, register_resource-IsValid, remove_resource-IsValid, set_resource_attributes-IsValid,
  remove_resource_attributes-IsValid,
}
use dc.Storage.View.{
  Directory, view, spec_register, spec_remove, spec_change, assign, clear, view-register_resource,
  view-remove_resource, view-set_resource_attributes, view-remove_resource_attributes,
}

-- A call of the interface that may change the store.
pub data Call : Type 0 where
  register : Resource → Call
  remove : String → Call
  set : String → List Attribute → Call
  unset : String → List Attribute → Call

unfoldable pub call : Call → Storage → Storage × Result (Unit {0})
call (register r) s = register_resource r s
call (remove id) s = remove_resource id s
call (set id attrs) s = set_resource_attributes id attrs s
call (unset id attrs) s = remove_resource_attributes id attrs s

-- The contract of the interface.
abbrev pub spec_call : Call → Directory → Directory × Result (Unit {0})
spec_call (register r) d = spec_register r d
spec_call (remove id) d = spec_remove id d
spec_call (set id attrs) d = spec_change id (assign attrs) d
spec_call (unset id attrs) d = spec_change id (clear attrs) d

call-IsValid : (c : Call) (s : Storage) → IsValid s → IsValid (call c s).0
unfolding call
call-IsValid (register r) s v = register_resource-IsValid r s v
call-IsValid (remove id) s v = remove_resource-IsValid id s v
call-IsValid (set id attrs) s v = set_resource_attributes-IsValid id attrs s v
call-IsValid (unset id attrs) s v = remove_resource_attributes-IsValid id attrs s v

-- Every call does to the store and answers what the contract says, errors included.
pub view-call : (c : Call) (s : Storage) → (view (call c s).0, (call c s).1) ≡ spec_call c (view s)
unfolding call
view-call (register r) s = view-register_resource r s
view-call (remove id) s = view-remove_resource id s
view-call (set id attrs) s = view-set_resource_attributes id attrs s
view-call (unset id attrs) s = view-remove_resource_attributes id attrs s

-- The store and the answers after a sequence of calls.
unfoldable pub calls : List Call → Storage → Storage × List (Result (Unit {0}))
unfolding call
calls [] s = (s, [])
calls (c ∷ cs) s = let (s', answers) = calls cs (call c s).0 in (s', (call c s).1 ∷ answers)

abbrev pub spec_calls : List Call → Directory → Directory × List (Result (Unit {0}))
spec_calls [] d = (d, [])
spec_calls (c ∷ cs) d =
    let (d', answers) = spec_calls cs (spec_call c d).0 in (d', (spec_call c d).1 ∷ answers)

-- Distinct ids and distinct attribute names survive any sequence of calls.
pub calls-IsValid : (cs : List Call) (s : Storage) → IsValid s → IsValid (calls cs s).0
unfolding calls
calls-IsValid [] s v = v
calls-IsValid (c ∷ cs) s v = calls-IsValid cs (call c s).0 (call-IsValid c s v)

-- After any sequence of calls the store holds, and each call has answered, what the contract says.
pub view-calls :
    (cs : List Call) (s : Storage) → (view (calls cs s).0, (calls cs s).1) ≡ spec_calls cs (view s)
unfolding calls
view-calls [] s = refl
view-calls (c ∷ cs) s =
    ap (λ (x : Directory × List (Result (Unit {0}))). (x.0, (call c s).1 ∷ x.1))
      (view-calls cs (call c s).0)
    ∙ ap
        (λ (o : Directory × Result (Unit {0})).
          ((spec_calls cs o.0).0, o.1 ∷ (spec_calls cs o.0).1))
        (view-call c s)
