-- ===== src/Sqs.antt =====
-- app/pkg/sqs: messages from Amazon SQS that become jobs, and SQS as a job queue.
pub mod Message
pub mod Bridge
pub mod Listener
pub mod Client
pub mod Config
pub mod Queue
