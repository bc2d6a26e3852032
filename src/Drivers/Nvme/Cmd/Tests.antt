-- ===== src/Drivers/Nvme/Cmd/Tests.antt =====
-- Commands with concrete fields.
