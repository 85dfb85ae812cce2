-- ===== src/Amqp/Methods/ReplyCode.antt =====
-- amqp/methods.h: the namespace `reply_code`.
use ganshin_mq.Base.{ℕ}

abbrev pub success : ℕ
success = 200

abbrev pub content_too_large : ℕ
content_too_large = 311

abbrev pub no_route : ℕ
no_route = 312

abbrev pub no_consumers : ℕ
no_consumers = 313

abbrev pub connection_forced : ℕ
connection_forced = 320

abbrev pub invalid_path : ℕ
invalid_path = 402

abbrev pub access_refused : ℕ
access_refused = 403

abbrev pub not_found : ℕ
not_found = 404

abbrev pub resource_locked : ℕ
resource_locked = 405

abbrev pub precondition_failed : ℕ
precondition_failed = 406

abbrev pub frame_error : ℕ
frame_error = 501

abbrev pub syntax_error : ℕ
syntax_error = 502

abbrev pub command_invalid : ℕ
command_invalid = 503

abbrev pub channel_error : ℕ
channel_error = 504

abbrev pub unexpected_frame : ℕ
unexpected_frame = 505

abbrev pub resource_error : ℕ
resource_error = 506

abbrev pub not_allowed : ℕ
not_allowed = 530

abbrev pub not_implemented : ℕ
not_implemented = 540

abbrev pub internal_error : ℕ
internal_error = 541
