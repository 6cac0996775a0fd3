-- ===== src/Routing/Keywords.antt =====
-- The keywords of the specialists: apps/cora-api/app/agents/forge.py, pulse.py, signal.py, chronos.py.
use cora_os.Prelude.{List, [], ◌∷◌}
use cora_os.Prelude.Text.{Text, codes}

-- `FORGE_ROUTING_KEYWORDS`
abbrev pub forge_routing_keywords : List Text
forge_routing_keywords =
    codes "code"
    ∷ codes "python"
    ∷ codes "javascript"
    ∷ codes "typescript"
    ∷ codes "react"
    ∷ codes "docker"
    ∷ codes "compose"
    ∷ codes "nginx"
    ∷ codes "postgres"
    ∷ codes "redis"
    ∷ codes "n8n"
    ∷ codes "ollama"
    ∷ codes "dgx"
    ∷ codes "fastapi"
    ∷ codes "error"
    ∷ codes "stack trace"
    ∷ codes "exception"
    ∷ codes "traceback"
    ∷ codes "api"
    ∷ codes "endpoint"
    ∷ codes "servicenow"
    ∷ codes "debug"
    ∷ codes "architecture"
    ∷ codes "infrastructure"
    ∷ codes "deploy"
    ∷ codes "build"
    ∷ codes "container"
    ∷ []

-- `PULSE_ROUTING_KEYWORDS`
abbrev pub pulse_routing_keywords : List Text
pulse_routing_keywords =
    codes "research"
    ∷ codes "investigate"
    ∷ codes "compare"
    ∷ codes "comparison"
    ∷ codes "versus"
    ∷ codes "vs"
    ∷ codes "evaluate"
    ∷ codes "analyze"
    ∷ codes "analysis"
    ∷ codes "summarize"
    ∷ codes "summary"
    ∷ codes "overview"
    ∷ codes "tradeoff"
    ∷ codes "tradeoffs"
    ∷ codes "pros and cons"
    ∷ codes "deep dive"
    ∷ codes "look into"
    ∷ codes "find information"
    ∷ codes "background on"
    ∷ codes "literature"
    ∷ codes "best practices"
    ∷ codes "options for"
    ∷ codes "news"
    ∷ codes "headlines"
    ∷ codes "current events"
    ∷ codes "recent developments"
    ∷ codes "what's happening"
    ∷ codes "latest on"
    ∷ []

-- `SIGNAL_ROUTING_KEYWORDS`
abbrev pub signal_routing_keywords : List Text
signal_routing_keywords =
    codes "email"
    ∷ codes "message"
    ∷ codes "communication"
    ∷ codes "communicate"
    ∷ codes "announcement"
    ∷ codes "notify"
    ∷ codes "notification"
    ∷ codes "follow up"
    ∷ codes "follow-up"
    ∷ codes "reply"
    ∷ codes "draft email"
    ∷ codes "rewrite this email"
    ∷ codes "stakeholder update"
    ∷ codes "status update"
    ∷ codes "send a note"
    ∷ codes "write a note"
    ∷ codes "subject line"
    ∷ codes "outbound"
    ∷ codes "inbox"
    ∷ codes "newsletter"
    ∷ codes "memo"
    ∷ []

-- `CHRONOS_ROUTING_KEYWORDS`
abbrev pub chronos_routing_keywords : List Text
chronos_routing_keywords =
    codes "schedule"
    ∷ codes "calendar"
    ∷ codes "meeting"
    ∷ codes "timeline"
    ∷ codes "due date"
    ∷ codes "deadline"
    ∷ codes "reminder"
    ∷ codes "remind me"
    ∷ codes "time block"
    ∷ codes "time blocking"
    ∷ codes "plan my day"
    ∷ codes "plan my week"
    ∷ codes "milestones"
    ∷ codes "roadmap"
    ∷ codes "cadence"
    ∷ codes "appointment"
    ∷ codes "availability"
    ∷ codes "reschedule"
    ∷ codes "agenda"
    ∷ codes "meeting prep"
    ∷ codes "when should"
    ∷ codes "how long"
    ∷ []
