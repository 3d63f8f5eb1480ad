-- ===== src/Controller/Services/Desired.antt =====
-- What the server is to have of the services that `BuildServices` returns.
use unbind_operator.Base.{◌∙◌, ◌≡◌, ◌⊎◌, true, false, Option, none, String, All, List, [], ◌∷◌}
use unbind_operator.Base.Outcome.{Outcome, ok, err, panic, service_not_needed}
use unbind_operator.Api.{Service}
use unbind_operator.Kube.{CoreService}
use unbind_operator.Client.View.{Tracked, View, assign, set-other, is_at}
use unbind_operator.Controller.Services.{is_desired, services_to_check}
use unbind_operator.Controller.Services.Ends.{HasService, IsPlain}

-- A write of the one service leaves the other alone.
abbrev pub IsApart : CoreService → CoreService → Type 0
IsApart d d' = is_at d'.meta.namespace d'.meta.name d.meta.namespace d.meta.name ≡ false

abbrev pub AreApart : List CoreService → Type 0
AreApart [] = Unit
AreApart (d ∷ ds) = All (IsApart d) ds × AreApart ds

pub HasService-assign :
    (d : CoreService) (namespace name : String) (entry : Option CoreService) (v : View)
    → is_at namespace name d.meta.namespace d.meta.name ≡ false
    → HasService d v
    → HasService d (assign Tracked.core_service namespace name entry v)
HasService-assign d namespace name entry v apart h = record {
  stored = h.stored;
  is_stored =
      set-other namespace name d.meta.namespace d.meta.name entry v.core_services apart
      ∙ h.is_stored;
  same_ports = h.same_ports;
  same_selector = h.same_selector;
  same_type = h.same_type;
}

-- The server has no service of this name.
abbrev pub IsAbsent : Service → View → String → Type 0
IsAbsent service v name = v.core_services service.namespace name ≡ none

-- Nothing but what is desired is left under this name.
abbrev pub IsCleaned : Service → List CoreService → View → String → Type 0
IsCleaned service ds v name = (is_desired ds name ≡ true) ⊎ IsAbsent service v name

-- The server has the services that the builder made, and no other service of the two names.
abbrev pub ServicesMatch : {F : Type 0} → Service → Outcome F (List CoreService) → View → Type 0
ServicesMatch service (ok ds) v =
    All (λ d. HasService d v) ds × All (IsCleaned service ds v) (services_to_check service)
ServicesMatch service (err e) v =
    (e ≡ service_not_needed) × All (IsAbsent service v) (services_to_check service)
ServicesMatch service panic v = ⊥

-- The services can be kept apart, and leave no node port to the server.
abbrev pub AreFit : {F : Type 0} → Outcome F (List CoreService) → Type 0
AreFit (ok ds) = All IsPlain ds × AreApart ds
AreFit (err e) = Unit
AreFit panic = Unit
