-- ===== src/Ap/Runs.antt =====
-- The theorems on A-MPDUs at concrete inputs.
