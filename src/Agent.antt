-- ===== src/Agent.antt =====
-- What the agent backends share: daemon/pkg/agent.
pub mod MessagePipe
pub mod StderrTail
pub mod Tests
pub mod Arguments
pub mod CommandLines
pub mod Messages
pub mod Copilot
pub mod Pi
pub mod Json
pub mod Claude
pub mod Codex
pub mod Thinking
