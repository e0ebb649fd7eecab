-- ===== src/Schemas.antt =====
-- The validators of backend/app/schemas.py on the text of a request, over ASCII. A field that a
-- validator refuses ends the request as a 422.
pub mod Emails
pub mod Phones
pub mod Names
