-- ===== src/Trigger.antt =====
-- `class Trigger` (pqnet/core/trigger.h, pqnet/core/trigger.cpp): a descriptor's registration with an
-- epoll instance, and the dispatch of what epoll_wait(2) reports. Handlers are functions on the state
-- of their owner; `none` is a fault in one of them.
mod Laws
mod Defs
pub use Defs.{Trigger, Revents, Handlers, no_handlers}
unfoldable pub use Defs.{
  new, set_epfd, set_fd, set_revents, add_to_loop, remove_from_loop, like_reading, like_writing,
  omit_reading, omit_writing, is_like_reading, is_like_writing, handle_event, set_read_handler,
  set_write_handler, set_error_handler,
}
pub use Laws.*
