-- ===== src/Policies.antt =====
-- matterloop-policies/src/python/matterloop_policies: the accounting of what runs consume.
pub mod Usage
pub mod Budget
