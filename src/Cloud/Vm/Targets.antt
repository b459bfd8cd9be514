-- ===== src/Cloud/Vm/Targets.antt =====
-- The lifecycle commands touch the managed instance only.
use browser_visit_logger.Base.{ℕ, Text, List, [], ◌∷◌, ◌≡◌, ◌⊎◌}
use browser_visit_logger.Cloud.Calls.{
  Aws, Site, Instance, Action, Call, Outcome, done, raised, act, describe_instances,
}
use browser_visit_logger.Cloud.Aws.{managed}
use browser_visit_logger.Cloud.Aws.Resolved.{IsManaged, IsLive}

-- What was done to instances.
unfoldable pub actions : List Call → List (Action × Text)
actions [] = []
actions (act action id ∷ calls) = (action, id) ∷ actions calls
actions (c ∷ calls) = actions calls

-- An instance that AWS lists now, and that has the role tag and is in a live state.
abbrev pub IsTarget : Aws → Site → Text → Type 0
IsTarget aws s id =
    IsLive id (aws.instances (describe_instances managed ∷ s.calls))
    × ((i : Instance) × (i.instance_id ≡ id) × IsManaged i)

-- The one action was done, to an instance that AWS had just listed and that has the role tag and is
-- in a live state.
abbrev pub ActedOn : Aws → Action → Site → Site → Type 0
ActedOn aws action s t =
    (id : Text) × (actions t.calls ≡ (action, id) ∷ actions s.calls) × IsTarget aws s id

abbrev pub Targets : Aws → Action → Site → Outcome ℕ × Site → Type 0
Targets aws action s (done code, t) = (code ≡ 0) × ActedOn aws action s t
Targets aws action s (raised e, t) = (actions t.calls ≡ actions s.calls) ⊎ ActedOn aws action s t

module _ (aws : Aws) (acted : List (Action × Text)) where
  abbrev Acted : List Call → Type 0
  Acted h = actions h ≡ acted
