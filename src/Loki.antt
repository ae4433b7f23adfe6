-- ===== src/Loki.antt =====
-- Direct push to Loki, of loki.go: the labels of a log line (Labels), the streams of one push
-- (Streams), and the queue with its background goroutine (Worker).
pub mod Labels
pub mod Streams
pub mod Worker
