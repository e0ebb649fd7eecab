-- ===== src/Api/Organizers/Opened.antt =====
-- What the login of an organizer opens.
