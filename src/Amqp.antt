-- ===== src/Amqp.antt =====
-- amqp/: field values, the buffer, and the content header.
pub mod FieldValue
pub mod Properties
pub mod Buffer
pub mod Table
pub mod Content
pub mod Frame
pub mod Methods
