-- ===== src/Tests.antt =====
-- Runs of the models on concrete inputs, and the theorems applied to them. Models no code of its
-- own.
mod Heap
mod Lists
mod Idle
mod Wheel
mod Threads
mod Processes
mod Children
mod Http
mod Serving
mod Responses
mod Echo
mod Chats
mod Shared
mod Events
