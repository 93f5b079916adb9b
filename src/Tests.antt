-- ===== src/Tests.antt =====
-- The theorems at concrete inputs. World.antt has the outside packages and the database that the
-- inputs run on.
mod World
mod Indexed
mod Properties
mod Errors
mod Users
mod Answers
mod Programs
mod Processes
mod Site
mod Single
mod Requests
mod Overlaps
mod Checks
mod Journeys
mod Sequences
