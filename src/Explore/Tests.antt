-- ===== src/Explore/Tests.antt =====
-- Tests of the page.
