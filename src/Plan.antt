-- ===== src/Plan.antt =====
-- `PlanService` (src/modules/subscription/plan.service.ts).
pub mod Retired
use payment_microservice.Prelude.{
  ℕ, suc, String, Bool, true, false, truthy, ◌&&◌, Option, none, some, List, ◌∷◌, ℤ, ◌==◌,
  or_default, if◌then◌else◌, find_first, find_many, update_where,
}
use payment_microservice.Store.{
  Plan, PlanInterval, ErrorCode, Metadata, Db, not_found, Action, pure, gets, modify, or_throw,
  require, ◌>>=◌, ◌>>◌, Env,
}
use payment_microservice.Subscription.{restricts}

pub record CreatePlanDto : Type 0 where
  pub tenant_id : String
  pub application_id : Option String
  pub name : String
  pub description : Option String
  pub amount : ℤ
  pub currency : String
  pub interval : PlanInterval
  pub interval_count : Option ℕ
  pub trial_days : Option ℕ
  pub metadata : Option Metadata

abbrev pub new_plan : Env → CreatePlanDto → Db → Plan
new_plan env dto db = record {
  id = env.uuid db.issued;
  tenant_id = dto.tenant_id;
  application_id = dto.application_id;
  name = dto.name;
  description = dto.description;
  amount = dto.amount;
  currency = dto.currency;
  interval = dto.interval;
  interval_count = or_default dto.interval_count 1;
  trial_days = or_default dto.trial_days 0;
  is_active = true;
  metadata = dto.metadata;
}

unfoldable pub create : Env → CreatePlanDto → Action Plan
create env dto = do
  row ← gets (new_plan env dto)
  modify (λ db. record db { issued = suc db.issued; plans = row ∷ db.plans })
  pure row

abbrev pub of_application : Option String → Option String → Bool
of_application none application_id = true
of_application (some wanted) none = if truthy wanted then false else true
of_application (some wanted) (some application_id) =
    if truthy wanted then application_id == wanted else true

-- the filter `tenantId`; where it is undefined, Prisma leaves it out
abbrev pub is_tenant : Option String → String → Bool
is_tenant none tenant_id = true
is_tenant (some wanted) tenant_id = tenant_id == wanted

abbrev pub is_listed : Option String → Bool → Option String → Plan → Bool
is_listed tenant_id only_active application_id p =
    is_tenant tenant_id p.tenant_id
    && (if only_active then p.is_active else true)
    && of_application application_id p.application_id

unfoldable pub find_all : Option String → Bool → Option String → Db → List Plan
find_all tenant_id only_active application_id db =
    find_many (is_listed tenant_id only_active application_id) db.plans

abbrev pub has_id : String → Plan → Bool
has_id id p = p.id == id

unfoldable pub find_by_id : String → Option String → Action Plan
find_by_id id tenant_id = do
  found ← gets (λ db. find_first (λ p. has_id id p && restricts tenant_id p.tenant_id) db.plans)
  or_throw found (not_found ErrorCode.plan_not_found)

abbrev pub retired : Plan → Plan
retired p = record p { is_active = false }

abbrev pub retire : String → Db → Db
retire id db = record db { plans = update_where (has_id id) retired db.plans }

unfoldable pub deactivate : String → String → Action Plan
unfolding find_by_id
deactivate id tenant_id = do
  find_by_id id (some tenant_id)
  found ← gets (λ db. find_first (has_id id) db.plans)
  plan ← require found
  modify (retire id)
  pure (retired plan)
