-- ===== src/Sweep/Promotion/Total.antt =====
-- Where `promote` of src/notary_platform/sweep/bridge.py raises.
