-- ===== src/Redact/Registered.antt =====
-- internal/redact/encodings.go: which forms `EncodingsWithDepth` returns.
