-- ===== src/Queue/Job.antt =====
-- packages/wazeko/src/queue/types.ts. `resolve` and `reject` of a job are effects of the queue
-- that name the job; what is thrown is a text.
use wazeko.Prelude.{ℕ, Option}
use wazeko.Text.{Text}
use wazeko.Types.Jid.{JidOrText}
use wazeko.Types.Message.{Message, MessageContent}

pub data MessagePriority : Type 0 where
  high normal low : MessagePriority

pub data JobStatus : Type 0 where
  pending processing completed failed : JobStatus

pub record MessageJobOptions : Type 0 where
  pub priority : Option MessagePriority
  pub max_retries : Option ℕ
  pub retry_delay_ms : Option ℕ
  pub timeout_ms : Option ℕ
  pub custom_id : Option Text

pub record MessageJob : Type 0 where
  pub id : Text
  pub to : JidOrText
  pub content : MessageContent
  pub priority : MessagePriority
  pub max_retries : ℕ
  pub retry_count : ℕ
  pub retry_delay_ms : ℕ
  pub timeout_ms : ℕ
  pub created_at : ℕ
  pub status : JobStatus

pub record QueueStats : Type 0 where
  pub pending_count : ℕ
  pub high_priority_count : ℕ
  pub normal_priority_count : ℕ
  pub low_priority_count : ℕ
  pub processing_count : ℕ
  pub completed_count : ℕ
  pub failed_count : ℕ

-- What the queue does that others see: its events, and the settling of the promises.
pub data Effect : Type 0 where
  job_enqueued job_processing : MessageJob → Effect
  job_completed : MessageJob → Message → Effect
  job_retry : MessageJob → Text → ℕ → Effect
  job_failed : MessageJob → Text → Effect
  resolve : MessageJob → Message → Effect
  reject : MessageJob → Text → Effect
