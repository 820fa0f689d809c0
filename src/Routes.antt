-- ===== src/Routes.antt =====
-- app/api/tasks/[id]: the requests on a task, over the parts that they call. A request is cut at its
-- awaits: what the rest of the process does there is an argument, a function of the world.
pub mod Send
pub mod Starting
pub mod Sending
pub mod Edit
pub mod Editing
pub mod Patching
pub mod Stop
pub mod Stopping
pub mod Delete
pub mod Deleting
