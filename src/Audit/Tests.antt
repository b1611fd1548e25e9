-- ===== src/Audit/Tests.antt =====
-- An entry of the audit log on a concrete state.
